-- ===== src/Wallet/VtxoManager/Boarding/Laws.antt =====
-- No boarding coin is settled twice, and none swept twice.
use congenial_giggle.Common.{
  filter, ℕ, ◌++◌, ◌≡◌, ◌↔◌, refl, sym, arith, Bool, true, false, ◌&&◌, not, List, [], ◌∷◌, Option,
  none, Result, ok, err, All, ltb, if◌then◌else◌, is_empty, map, ==_iff,
}
use congenial_giggle.Common.Int.{pos, ◌-ℤ◌, ltb_ℤ}
use congenial_giggle.Common.Sets.{
  IsNew, IsDistinct, any-eq_iff, IsNew-append, IsDistinct-append, IsDistinct-filter, All-filter,
}
use congenial_giggle.Common.Results.{thrown, ok_injective}
use congenial_giggle.Extension.Asset.Hex.{Text}
use congenial_giggle.Extension.Asset.Packet.Laws.{same_text_iff}
use congenial_giggle.Wallet.VtxoManager.Boarding.{
  Outpoint, same_outpoint, has, Utxo, outpoint, sum_values, RelativeTimelock, Error, Answers,
  Manager, expired_at, after_settle, settle_unexpired, after_broadcast, sweep_expired,
  unsettled_utxos, settle_unsettled, settle_boarding_utxos, unswept_utxos, sweep_vsize, sweep_utxos,
  sweep_expired_boarding_utxos, get_expired_boarding_utxos, has_boarding_tx_expired, chain_tip,
}

same_outpoint_iff : (a b : Outpoint) → (same_outpoint a b ≡ true) ↔ (a ≡ b)
same_outpoint_iff (s, m) (t, n) = ground (arith, same_text_iff s t, ==_iff m n)

-- What was done stands in the log once, and the set holds all of it.
abbrev pub Covers : List Outpoint → List Outpoint → Type 0
Covers set log = IsDistinct log × ((z : Outpoint) → IsNew z set → IsNew z log)

All-weaken :
    {P Q : Outpoint → Type 0}
    → ((z : Outpoint) → P z → Q z)
    → (xs : List Outpoint) → All P xs
    → All Q xs
All-weaken weaker [] h = tt
All-weaken weaker (x ∷ xs) (p, h) = (weaker x p, All-weaken weaker xs h)

Covers-append :
    (set log xs : List Outpoint)
    → Covers set log
    → IsDistinct xs
    → All (λ x. IsNew x set) xs
    → Covers (xs ++ set) (xs ++ log)
Covers-append set log xs (once, held) distinct new = (
  IsDistinct-append xs log distinct once (All-weaken held xs new),
  λ z h.
      let (apart, other) = (IsNew-append z xs set).0 h in
      (IsNew-append z xs log).1 (apart, held z other),
)

-- The marks of a manager cover what it has settled and swept.
abbrev pub IsMarked : Manager → Type 0
IsMarked m = Covers m.known_boarding_utxos m.settled × Covers m.swept_boarding_utxos m.broadcasts

unset-IsNew :
    (set : List Outpoint) (z : Outpoint) (b : Bool) → (not (has set z) && b) ≡ true → IsNew z set
unset-IsNew set z b h = (any-eq_iff same_outpoint same_outpoint_iff z set).0 (ground (arith, h))

-- Both branches of a test leave a marked manager.
pub either :
    {E : Type 0} (test : Bool) (x y : E × Manager)
    → IsMarked x.1
    → IsMarked y.1
    → IsMarked (if test then x else y).1
either true x y p q = p
either false x y p q = q

expired_at-IsDistinct :
    (lock : RelativeTimelock) (now_ms : ℕ) (utxos : List Utxo) (height : Result Error (Option ℕ))
    → IsDistinct (map outpoint utxos)
    → (coins : List Utxo) → expired_at lock now_ms utxos height ≡ ok coins
    → IsDistinct (map outpoint coins)
expired_at-IsDistinct lock now_ms utxos (err e) distinct coins found = absurd (thrown found)
expired_at-IsDistinct lock now_ms utxos (ok height) distinct coins found =
    rw (sym (ok_injective found))
      (IsDistinct-filter outpoint (has_boarding_tx_expired lock height now_ms) utxos distinct)

-- What a branch is worked on with: new coins, each once.
abbrev pub AreFresh : List Outpoint → List Utxo → Type 0
AreFresh set utxos = IsDistinct (map outpoint utxos) × All (λ z. IsNew z set) (map outpoint utxos)

module _ (lock : RelativeTimelock) (dust : ℕ) (answers : Answers) where
  after_settle-IsMarked :
      (result : Result Error Text) (utxos : List Utxo) (m : Manager)
      → IsMarked m
      → AreFresh m.known_boarding_utxos utxos
      → IsMarked (after_settle lock dust answers result utxos m).1
  after_settle-IsMarked (err e) utxos m marked fresh = marked
  after_settle-IsMarked (ok txid) utxos m (settled, swept) (distinct, new) = (
    Covers-append m.known_boarding_utxos m.settled (map outpoint utxos) settled distinct new,
    swept,
  )

  settle_unsettled-IsMarked :
      (utxos : List Utxo) (m : Manager)
      → IsMarked m
      → AreFresh m.known_boarding_utxos utxos
      → IsMarked (settle_unsettled lock dust answers utxos m).1
  unfolding settle_unsettled
  settle_unsettled-IsMarked utxos m marked fresh =
      let result = answers.settle utxos (sum_values utxos) in
      either (is_empty utxos) (none, m) _ marked
        (either (ltb (sum_values utxos) dust) (none, m) _ marked
          (after_settle-IsMarked result utxos m marked fresh))

  settle_unexpired-IsMarked :
      (expired : Result Error (List Utxo)) (utxos : List Utxo) (m : Manager)
      → IsDistinct (map outpoint utxos)
      → IsMarked m
      → IsMarked (settle_unexpired lock dust answers expired utxos m).1
  unfolding unsettled_utxos
  settle_unexpired-IsMarked (err e) utxos m distinct marked = marked
  settle_unexpired-IsMarked (ok expired) utxos m distinct marked =
      let known = m.known_boarding_utxos in
      let unexpired : Utxo → Bool = λ u. not (has (map outpoint expired) (outpoint u)) in
      let test : Utxo → Bool = λ u. not (has known (outpoint u)) && unexpired u in
      settle_unsettled-IsMarked (filter test utxos) m marked (
        IsDistinct-filter outpoint test utxos distinct,
        All-filter outpoint test (λ z. IsNew z known)
            (λ u. unset-IsNew known (outpoint u) (unexpired u)) utxos,
      )

  after_broadcast-IsMarked :
      (result : Result Error Text) (utxos : List Utxo) (m : Manager)
      → IsMarked m
      → AreFresh m.swept_boarding_utxos utxos
      → IsMarked (after_broadcast lock dust answers result utxos m).1
  after_broadcast-IsMarked (err e) utxos m marked fresh = marked
  after_broadcast-IsMarked (ok txid) utxos m ((once, held), swept) (distinct, new) = (
    (once, λ z (_, h). held z h),
    Covers-append m.swept_boarding_utxos m.broadcasts (map outpoint utxos) swept distinct new,
  )

  sweep_utxos-IsMarked :
      (fee : Result Error (ℕ → ℕ)) (utxos : List Utxo) (m : Manager)
      → IsMarked m
      → AreFresh m.swept_boarding_utxos utxos
      → IsMarked (sweep_utxos lock dust answers fee utxos m).1
  sweep_utxos-IsMarked (err e) utxos m marked fresh = marked
  sweep_utxos-IsMarked (ok fee) utxos m marked fresh =
      let output_amount =
        pos (sum_values utxos)
        -ℤ pos (fee (sweep_vsize answers.exit_leaf answers.boarding_script utxos)) in
      either (ltb_ℤ output_amount (pos dust)) (_, m) _ marked
        (after_broadcast-IsMarked (answers.broadcast utxos output_amount) utxos m marked fresh)

  sweep_expired-IsMarked :
      (expired : Result Error (List Utxo)) (m : Manager)
      → ((coins : List Utxo) → expired ≡ ok coins → IsDistinct (map outpoint coins))
      → IsMarked m
      → IsMarked (sweep_expired lock dust answers expired m).1
  unfolding unswept_utxos
  sweep_expired-IsMarked (err e) m distinct marked = marked
  sweep_expired-IsMarked (ok expired) m distinct marked =
      let swept = m.swept_boarding_utxos in
      let test : Utxo → Bool = λ u. not (has swept (outpoint u)) in
      either (is_empty (filter test expired)) (_, m) _ marked
        (sweep_utxos-IsMarked answers.fee_of_size (filter test expired) m marked (
          IsDistinct-filter outpoint test expired (distinct expired refl),
          All-filter outpoint test (λ z. IsNew z swept)
              (λ u h. unset-IsNew swept (outpoint u) true (ground (arith, h))) expired,
        ))

  pub settle_boarding_utxos-IsMarked :
      (utxos : List Utxo) (m : Manager)
      → IsDistinct (map outpoint utxos)
      → IsMarked m
      → IsMarked (settle_boarding_utxos lock dust answers utxos m).1
  unfolding settle_boarding_utxos
  settle_boarding_utxos-IsMarked utxos m distinct marked =
      settle_unexpired-IsMarked _ utxos m distinct marked

  pub sweep_expired_boarding_utxos-IsMarked :
      (enabled : Bool) (utxos : List Utxo) (m : Manager)
      → IsDistinct (map outpoint utxos)
      → IsMarked m
      → IsMarked (sweep_expired_boarding_utxos lock dust answers enabled utxos m).1
  unfolding sweep_expired_boarding_utxos get_expired_boarding_utxos
  sweep_expired_boarding_utxos-IsMarked enabled utxos m distinct marked =
      let height = chain_tip lock answers.sweep_tip in
      either (not enabled) (_, m) _ marked
        (sweep_expired-IsMarked _ m
          (expired_at-IsDistinct lock answers.sweep_now utxos height distinct) marked)
