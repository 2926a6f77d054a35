-- ===== src/Utils/TransactionHistory/Laws.antt =====
-- What the history lists, and in which order.
use congenial_giggle.Common.{
  filter, Option-cases, Bool-cases, inl, inr, if◌then◌else◌, refl, ℕ, ◌≡◌, sym, ap, subst, ◌≢◌,
  arith, Bool, true, false, ◌||◌, List, [], ◌∷◌, ◌++◌, append-nil, Option, none, some, is_empty,
  any, ltb, All, All-append, if_elim,
}
use congenial_giggle.Extension.Asset.Hex.{Text}
use congenial_giggle.Extension.Asset.Packet.{same_text}
use congenial_giggle.Extension.Asset.Packet.Laws.{same_text_iff}
use congenial_giggle.Utils.TransactionHistory.{
  same_option, sum_values, VirtualCoin, ArkTransaction, TxKey, tx_key, History, has, sent_offchain,
  add_offchain, exit_tx, exit_of, add_exit, add_sent, add_all, received_of,
}

-- No two transactions have one key.
abbrev pub AreDistinct : List ArkTransaction → Type 0
AreDistinct [] = Unit {0}
AreDistinct (t ∷ txs) = All (λ u. u.key ≢ t.key) txs × AreDistinct txs

AreDistinct-snoc :
    (txs : List ArkTransaction) (t : ArkTransaction)
    → AreDistinct txs
    → All (λ u. u.key ≢ t.key) txs
    → AreDistinct (txs ++ (t ∷ []))
AreDistinct-snoc [] t d h = (tt, tt)
AreDistinct-snoc (u ∷ txs) t (h, d) (ne, k) = (
  All-append (λ x. x.key ≢ u.key) txs (t ∷ []) h ((λ e. ne (sym e), tt)),
  AreDistinct-snoc txs t d k,
)

module _ (coins : List VirtualCoin) (ignored : List Text) (ask : Option (Text → Option ℕ)) where
  new_ark :
      (s : Text) (txs : List ArkTransaction)
      → any (λ t. same_text t.key.ark_txid s) txs ≡ false
      → All (λ t. t.key.ark_txid ≢ s) txs
  new_ark s [] h = tt
  new_ark s (t ∷ txs) h = ground (arith, same_text_iff t.key.ark_txid s, new_ark s txs)

  new_commitment :
      (s : Text) (txs : List ArkTransaction)
      → any (λ t. same_text t.key.commitment_txid s) txs ≡ false
      → All (λ t. t.key.commitment_txid ≢ s) txs
  new_commitment s [] h = tt
  new_commitment s (t ∷ txs) h =
      ground (arith, same_text_iff t.key.commitment_txid s, new_commitment s txs)

  All-ark_key :
      (k : TxKey) (txs : List ArkTransaction)
      → All (λ t. t.key.ark_txid ≢ k.ark_txid) txs
      → All (λ t. t.key ≢ k) txs
  All-ark_key k [] h = tt
  All-ark_key k (t ∷ txs) (ne, h) = (λ e. ne (ap (λ x. x.ark_txid) e), All-ark_key k txs h)

  All-commitment_key :
      (k : TxKey) (txs : List ArkTransaction)
      → All (λ t. t.key.commitment_txid ≢ k.commitment_txid) txs
      → All (λ t. t.key ≢ k) txs
  All-commitment_key k [] h = tt
  All-commitment_key k (t ∷ txs) (ne, h) =
      (λ e. ne (ap (λ x. x.commitment_txid) e), All-commitment_key k txs h)

  or_false : (a b : Bool) → (a || b) ≡ false → b ≡ false
  or_false true b h = absurd (cc)
  or_false false b h = h

  add_offchain-AreDistinct :
      (o : Option Text) (v : VirtualCoin) (txs : List ArkTransaction)
      → AreDistinct txs
      → AreDistinct (add_offchain coins ignored ask o v txs)
  unfolding add_offchain sent_offchain
  add_offchain-AreDistinct none v txs d = d
  add_offchain-AreDistinct (some s) v txs d =
      if_elim AreDistinct (is_empty s || any (λ t. same_text t.key.ark_txid s) txs) (λ known. d)
        (λ new.
          AreDistinct-snoc txs (sent_offchain coins ignored ask s v) d
            (All-ark_key (record tx_key { ark_txid = s }) txs (new_ark s txs (or_false _ _ new))))

  exit_of-AreDistinct :
      (s : Text) (changes : List VirtualCoin) (v : VirtualCoin) (txs : List ArkTransaction)
      → AreDistinct txs
      → All (λ t. t.key.commitment_txid ≢ s) txs
      → AreDistinct (txs ++ exit_of coins ignored ask s changes v)
  unfolding exit_of exit_tx
  exit_of-AreDistinct s [] v txs d new =
      AreDistinct-snoc txs _ d (All-commitment_key (record tx_key { commitment_txid = s }) txs new)
  exit_of-AreDistinct s (change ∷ changes) v txs d new =
      let forfeits = filter (λ c. same_option c.settled_by (some s)) coins in
      if_elim (λ l. AreDistinct (txs ++ l))
        (ltb (sum_values (change ∷ changes)) (sum_values forfeits))
        (λ exits.
          AreDistinct-snoc txs
            (exit_tx coins ignored ask s forfeits (change ∷ changes) change.created_at) d
            (All-commitment_key (record tx_key { commitment_txid = s }) txs new))
        (λ stays. subst AreDistinct (sym (append-nil txs)) d)

  add_exit-AreDistinct :
      (o : Option Text) (v : VirtualCoin) (txs : List ArkTransaction)
      → AreDistinct txs
      → AreDistinct (add_exit coins ignored ask o v txs)
  unfolding add_exit
  add_exit-AreDistinct none v txs d = d
  add_exit-AreDistinct (some s) v txs d =
      if_elim AreDistinct
        (is_empty s || (has ignored (some s) || any (λ t. same_text t.key.commitment_txid s) txs))
        (λ known. d)
        (λ new.
          exit_of-AreDistinct s _ v txs d (
            new_commitment s txs (or_false (has ignored (some s)) _ (or_false (is_empty s) _ new))))

  add_sent-AreDistinct :
      (v : VirtualCoin) (txs : List ArkTransaction)
      → AreDistinct txs
      → AreDistinct (add_sent coins ignored ask v txs)
  unfolding add_sent
  add_sent-AreDistinct v txs d =
      if_elim AreDistinct v.is_spent
        (λ spent.
          add_exit-AreDistinct v.settled_by v (add_offchain coins ignored ask v.ark_tx_id v txs)
            (add_offchain-AreDistinct v.ark_tx_id v txs d))
        (λ unspent. d)

  add_all-AreDistinct :
      (rest : List VirtualCoin) (h : History)
      → AreDistinct h.sent_txs
      → AreDistinct (add_all coins ignored ask rest h).sent_txs
  unfolding add_all
  add_all-AreDistinct [] h d = d
  add_all-AreDistinct (v ∷ rest) h d =
      add_all-AreDistinct rest
        (record {
          sent_txs = add_sent coins ignored ask v h.sent_txs;
          received_txs = h.received_txs ++ received_of coins ignored ask v;
        })
        (add_sent-AreDistinct v h.sent_txs d)

-- The transaction that has spent a coin is among those listed.
abbrev pub is_among : List ArkTransaction → Text → Bool
is_among txs s = is_empty s || any (λ t. same_text t.key.ark_txid s) txs

abbrev pub is_listed : List ArkTransaction → VirtualCoin → Bool
is_listed txs v =
    if v.is_spent then elim v.ark_tx_id [ none ↦ true | some s ↦ is_among txs s ] else true

is_among-append :
    (txs more : List ArkTransaction) (s : Text)
    → is_among txs s ≡ true
    → is_among (txs ++ more) s ≡ true
is_among-append [] more s h = ground (arith, h)
is_among-append (t ∷ txs) more s h = ground (arith, h, is_among-append txs more s)

is_among_last :
    (txs : List ArkTransaction) (t : ArkTransaction) (s : Text)
    → t.key.ark_txid ≡ s
    → is_among (txs ++ (t ∷ [])) s ≡ true
is_among_last [] t s e = ground (arith, e, same_text_iff t.key.ark_txid s)
is_among_last (u ∷ txs) t s e = ground (arith, is_among_last txs t s e)

is_listed_of :
    (txs : List ArkTransaction) (v : VirtualCoin)
    → ((a : Text) → v.is_spent ≡ true → v.ark_tx_id ≡ some a → is_among txs a ≡ true)
    → is_listed txs v ≡ true
is_listed_of txs v named = elim (Bool-cases v.is_spent) [
  | inl spent ↦ elim (Option-cases v.ark_tx_id) [
    | inl no_id ↦ rw (spent, no_id) refl
    | inr (a, e) ↦ rw (spent, e) (named a spent e)
  ]
  | inr unspent ↦ rw unspent refl
]

-- Nothing listed is lost.
abbrev Keeps : List ArkTransaction → List ArkTransaction → Type 0
Keeps txs txs' = (s : Text) → is_among txs s ≡ true → is_among txs' s ≡ true

module _ (coins : List VirtualCoin) (ignored : List Text) (ask : Option (Text → Option ℕ)) where
  add_offchain-Keeps :
      (o : Option Text) (v : VirtualCoin) (txs : List ArkTransaction)
      → Keeps txs (add_offchain coins ignored ask o v txs)
  unfolding add_offchain
  add_offchain-Keeps none v txs s h = h
  add_offchain-Keeps (some a) v txs s h =
      if_elim (λ l. is_among l s ≡ true) (is_empty a || any (λ t. same_text t.key.ark_txid a) txs)
        (λ known. h) (λ new. is_among-append txs (sent_offchain coins ignored ask a v ∷ []) s h)

  add_exit-Keeps :
      (o : Option Text) (v : VirtualCoin) (txs : List ArkTransaction)
      → Keeps txs (add_exit coins ignored ask o v txs)
  unfolding add_exit
  add_exit-Keeps none v txs s h = h
  add_exit-Keeps (some a) v txs s h =
      if_elim (λ l. is_among l s ≡ true)
        (is_empty a || (has ignored (some a) || any (λ t. same_text t.key.commitment_txid a) txs))
        (λ known. h) (λ new. is_among-append txs _ s h)

  add_sent-Keeps :
      (v : VirtualCoin) (txs : List ArkTransaction) → Keeps txs (add_sent coins ignored ask v txs)
  unfolding add_sent
  add_sent-Keeps v txs s h =
      if_elim (λ l. is_among l s ≡ true) v.is_spent
        (λ spent.
          add_exit-Keeps v.settled_by v (add_offchain coins ignored ask v.ark_tx_id v txs) s
            (add_offchain-Keeps v.ark_tx_id v txs s h))
        (λ unspent. h)

  add_offchain-is_among :
      (a : Text) (v : VirtualCoin) (txs : List ArkTransaction)
      → is_among (add_offchain coins ignored ask (some a) v txs) a ≡ true
  unfolding add_offchain sent_offchain
  add_offchain-is_among a v txs =
      if_elim (λ l. is_among l a ≡ true) (is_empty a || any (λ t. same_text t.key.ark_txid a) txs)
        (λ known. known) (λ new. is_among_last txs (sent_offchain coins ignored ask a v) a refl)

  add_sent-is_among :
      (a : Text) (v : VirtualCoin) (txs : List ArkTransaction)
      → v.is_spent ≡ true
      → v.ark_tx_id ≡ some a
      → is_among (add_sent coins ignored ask v txs) a ≡ true
  unfolding add_sent
  add_sent-is_among a v txs spent e =
      if_elim (λ l. is_among l a ≡ true) v.is_spent
        (λ same.
          add_exit-Keeps v.settled_by v (add_offchain coins ignored ask v.ark_tx_id v txs) a (
            subst (λ o. is_among (add_offchain coins ignored ask o v txs) a ≡ true) (sym e)
              (add_offchain-is_among a v txs)))
        (λ unspent. absurd cc)

  every_listed :
      (rest : List VirtualCoin) (h : History)
      → Keeps h.sent_txs (add_all coins ignored ask rest h).sent_txs
        × All (λ v. is_listed (add_all coins ignored ask rest h).sent_txs v ≡ true) rest
  unfolding add_all
  every_listed [] h = (λ s known. known, tt)
  every_listed (v ∷ rest) h =
      let after = add_sent coins ignored ask v h.sent_txs in
      let (kept, listed) = every_listed rest (record {
        sent_txs = after;
        received_txs = h.received_txs ++ received_of coins ignored ask v;
      }) in
      (
        λ s known. kept s (add_sent-Keeps v h.sent_txs s known),
        (is_listed_of _ v (λ a spent e. kept a (add_sent-is_among a v h.sent_txs spent e)), listed),
      )

-- Every transaction offchain that has spent one of the coins is listed among what was sent, and
-- however many coins a transaction has spent or a batch has taken, no two entries are of the same
-- transaction or batch.
pub add_all-once :
    (vtxos : List VirtualCoin) (commitments_to_ignore : List Text)
    (get_tx_created_at : Option (Text → Option ℕ))
    → let history =
        add_all vtxos commitments_to_ignore get_tx_created_at vtxos
          (record { sent_txs = []; received_txs = [] }) in
      AreDistinct history.sent_txs × All (λ v. is_listed history.sent_txs v ≡ true) vtxos
add_all-once vtxos ignored ask =
    let fresh : History = record { sent_txs = []; received_txs = [] } in
    (
      add_all-AreDistinct vtxos ignored ask vtxos fresh tt,
      (every_listed vtxos ignored ask vtxos fresh).1,
    )
