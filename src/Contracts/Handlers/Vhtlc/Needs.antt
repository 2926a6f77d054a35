-- ===== src/Contracts/Handlers/Vhtlc/Needs.antt =====
-- What a path of a VHTLC contract needs.
use congenial_giggle.Common.{
  ℕ, ◌+◌, ◌*◌, ◌/◌, ◌≤◌, ◌<◌, inl, inr, Option-cases, Bool-cases, ltb, ◌≡◌, refl, ◌⊎◌, arith, true,
  false, Option, none, some, ok,
}
use congenial_giggle.Extension.Asset.Hex.{Hex, Text}
use congenial_giggle.Extension.Asset.Packet.Laws.{same_text_iff}
use congenial_giggle.Contracts.Handlers.{
  RelativeTimelock, blocks, seconds, CoinStatus, match_key, is_elapsed, sequence_to_timelock,
  is_csv_spendable_coin, Bip68, Role, sender, receiver, PathContext, Params, resolve_role,
  is_cltv_satisfied, is_csv_spendable,
}
use congenial_giggle.Contracts.Handlers.Vhtlc.{
  Leaf, claim, refund_without_receiver, unilateral_claim, unilateral_refund_without_receiver,
  PathSelection, claim_path, refund_path, select_collaborative, select_unilateral, select_path,
}

abbrev pub key_of : Role → Params → Text
key_of sender params = params.sender_key
key_of receiver params = params.receiver_key

-- The wallet has the role that the context says, or else that of the party with its key.
abbrev pub HasRole : Params → PathContext → Role → Type 0
HasRole params context role =
    (context.role ≡ some role)
    ⊎ ((context.role ≡ none) × (context.wallet_pub_key ≡ some (key_of role params)))

-- A height or a time in seconds, told apart by their size, that has come.
abbrev pub IsPast : PathContext → ℕ → Type 0
IsPast context locktime =
    ((locktime < 500_000_000) × (now : ℕ) × (context.block_height ≡ some now) × (locktime ≤ now))
    ⊎ ((500_000_000 ≤ locktime) × (locktime * 1000 ≤ context.current_time))

-- A number of blocks or of seconds that has gone by since the coin was confirmed.
abbrev pub IsOld : PathContext → CoinStatus → RelativeTimelock → Type 0
IsOld context status (blocks value) =
    (now : ℕ) × (confirmed : ℕ) × (context.block_height ≡ some now)
    × (status.block_height ≡ some confirmed)
    × (value + confirmed ≤ now)
IsOld context status (seconds value) =
    (confirmed : ℕ) × (status.block_time ≡ some confirmed)
    × (1000 * (value + confirmed) ≤ context.current_time)

abbrev pub HasElapsed : Bip68 → PathContext → ℕ → Type 0
HasElapsed bip68 context delay =
    (status : CoinStatus) × (timelock : RelativeTimelock) × (context.vtxo ≡ some status)
    × (bip68.decode delay ≡ some timelock)
    × IsOld context status timelock

-- Who can use a leaf, in which mode, and what the leaf asks for.
abbrev pub NeedsPath : Bip68 → Params → PathContext → Leaf → Type 0
NeedsPath bip68 params context claim =
    HasRole params context receiver × (context.collaborative ≡ true)
NeedsPath bip68 params context refund_without_receiver =
    (locktime : ℕ) × HasRole params context sender
    × (context.collaborative ≡ true)
    × (params.refund_locktime ≡ some locktime)
    × IsPast context locktime
NeedsPath bip68 params context unilateral_claim =
    HasRole params context receiver
    × (context.collaborative ≡ false)
    × HasElapsed bip68 context params.claim_delay
NeedsPath bip68 params context unilateral_refund_without_receiver =
    HasRole params context sender
    × (context.collaborative ≡ false)
    × HasElapsed bip68 context params.refund_no_receiver_delay

match_key-eq :
    (o : Option Text) (params : Params) (role : Role)
    → match_key o params ≡ some role
    → o ≡ some (key_of role params)
unfolding match_key
match_key-eq none params role h = absurd cc
match_key-eq (some key) params sender h =
    ground (arith, same_text_iff key params.sender_key, same_text_iff key params.receiver_key)
match_key-eq (some key) params receiver h =
    ground (arith, same_text_iff key params.sender_key, same_text_iff key params.receiver_key)

resolve_role-HasRole :
    (params : Params) (context : PathContext) (role : Role)
    → resolve_role params context ≡ some role
    → HasRole params context role
unfolding resolve_role
resolve_role-HasRole params context role h = elim (Option-cases context.role) [
  | inl no_role ↦
      let named : match_key context.wallet_pub_key params ≡ some role =
        ground (arith, no_role, h) in
      inr (no_role, match_key-eq context.wallet_pub_key params role named)
  | inr (given, e) ↦ inl (ground (arith, e, h))
]

is_cltv_satisfied-IsPast :
    (context : PathContext) (locktime : ℕ)
    → is_cltv_satisfied context locktime ≡ true
    → IsPast context locktime
unfolding is_cltv_satisfied
is_cltv_satisfied-IsPast context locktime h = elim (Bool-cases (ltb locktime 500_000_000)) [
  | inl is_height ↦ elim (Option-cases context.block_height) [
    | inl unknown ↦ ground (arith, is_height, unknown, h)
    | inr (now, e) ↦ inl (ground (arith, is_height), now, e, ground (arith, is_height, e, h))
  ]
  | inr is_time ↦
      let come : locktime ≤ context.current_time / 1000 = ground (arith, is_time, h) in
      inr (ground (arith, is_time), omega (arith, come))
]

is_elapsed-IsOld :
    (context : PathContext) (status : CoinStatus) (timelock : RelativeTimelock)
    → is_elapsed context status timelock ≡ true
    → IsOld context status timelock
unfolding is_elapsed
is_elapsed-IsOld context status (blocks value) h = elim (Option-cases context.block_height) [
  | inl unknown ↦ ground (arith, unknown, h)
  | inr (now, e) ↦ elim (Option-cases status.block_height) [
    | inl unconfirmed ↦ ground (arith, e, unconfirmed, h)
    | inr (confirmed, at) ↦ (now, confirmed, e, at, ground (arith, e, at, h))
  ]
]
is_elapsed-IsOld context status (seconds value) h = elim (Option-cases status.block_time) [
  | inl unconfirmed ↦ ground (arith, unconfirmed, h)
  | inr (confirmed, at) ↦ (confirmed, at, ground (arith, at, h))
]

coin-HasElapsed :
    (bip68 : Bip68) (context : PathContext) (delay : ℕ) (coin : Option CoinStatus)
    → context.vtxo ≡ coin
    → is_csv_spendable_coin bip68 context delay coin ≡ ok true
    → HasElapsed bip68 context delay
unfolding is_csv_spendable_coin sequence_to_timelock
coin-HasElapsed bip68 context delay none e h = absurd cc
coin-HasElapsed bip68 context delay (some status) e h = elim (Option-cases (bip68.decode delay)) [
  | inl no_timelock ↦ ground (arith, no_timelock, h)
  | inr (timelock, decoded) ↦
      let old : is_elapsed context status timelock ≡ true = ground (arith, decoded, h) in
      (status, timelock, e, decoded, is_elapsed-IsOld context status timelock old)
]

is_csv_spendable-HasElapsed :
    (bip68 : Bip68) (context : PathContext) (delay : ℕ)
    → is_csv_spendable bip68 context (some delay) ≡ ok true
    → HasElapsed bip68 context delay
unfolding is_csv_spendable
is_csv_spendable-HasElapsed bip68 context delay h =
    coin-HasElapsed bip68 context delay context.vtxo refl h

-- The tests that lead to a leaf.
abbrev Tested : Bip68 → Params → PathContext → ℕ → Leaf → Type 0
Tested bip68 params context locktime claim =
    (resolve_role params context ≡ some receiver) × (context.collaborative ≡ true)
Tested bip68 params context locktime refund_without_receiver =
    (resolve_role params context ≡ some sender)
    × (context.collaborative ≡ true)
    × (is_cltv_satisfied context locktime ≡ true)
Tested bip68 params context locktime unilateral_claim =
    (resolve_role params context ≡ some receiver)
    × (context.collaborative ≡ false)
    × (is_csv_spendable bip68 context (some params.claim_delay) ≡ ok true)
Tested bip68 params context locktime unilateral_refund_without_receiver =
    (resolve_role params context ≡ some sender)
    × (context.collaborative ≡ false)
    × (is_csv_spendable bip68 context (some params.refund_no_receiver_delay) ≡ ok true)

select_path-Tested :
    (hex : Hex) (bip68 : Bip68) (params : Params) (context : PathContext) (path : PathSelection)
    (locktime : ℕ)
    → params.refund_locktime ≡ some locktime
    → select_path hex bip68 params context ≡ ok (some path)
    → Tested bip68 params context locktime path.leaf
unfolding select_path select_collaborative select_unilateral claim_path refund_path
select_path-Tested hex bip68 params context path locktime e h = grind arith

Tested-NeedsPath :
    (bip68 : Bip68) (params : Params) (context : PathContext) (locktime : ℕ) (leaf : Leaf)
    → params.refund_locktime ≡ some locktime
    → Tested bip68 params context locktime leaf
    → NeedsPath bip68 params context leaf
Tested-NeedsPath bip68 params context locktime claim e (role, mode) =
    (resolve_role-HasRole params context receiver role, mode)
Tested-NeedsPath bip68 params context locktime refund_without_receiver e (role, mode, past) = (
  locktime,
  resolve_role-HasRole params context sender role,
  mode,
  e,
  is_cltv_satisfied-IsPast context locktime past,
)
Tested-NeedsPath bip68 params context locktime unilateral_claim e (role, mode, old) = (
  resolve_role-HasRole params context receiver role,
  mode,
  is_csv_spendable-HasElapsed bip68 context params.claim_delay old,
)
Tested-NeedsPath bip68 params context locktime unilateral_refund_without_receiver e
      (role, mode, old) =
    (
      resolve_role-HasRole params context sender role,
      mode,
      is_csv_spendable-HasElapsed bip68 context params.refund_no_receiver_delay old,
    )

-- A selected path is one of the wallet's role, which the context names or else the wallet's key, in
-- the mode that the context asks for; a refund with the server comes when the height or the time
-- that the refund locktime stands for has come, and a path without the server when as many blocks or
-- seconds as its delay stands for have gone by since the coin was confirmed.
pub select_path-needs :
    (hex : Hex) (bip68 : Bip68) (params : Params) (context : PathContext) (path : PathSelection)
    → select_path hex bip68 params context ≡ ok (some path)
    → NeedsPath bip68 params context path.leaf
unfolding select_path
select_path-needs hex bip68 params context path h = elim (Option-cases params.refund_locktime) [
  | inl malformed ↦ ground (arith, malformed, h)
  | inr (locktime, e) ↦
      Tested-NeedsPath bip68 params context locktime path.leaf e
        (select_path-Tested hex bip68 params context path locktime e h)
]
