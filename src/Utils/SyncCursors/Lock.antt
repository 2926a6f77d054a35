-- ===== src/Utils/SyncCursors/Lock.antt =====
-- `walletStateLocks` of packages/ts-sdk/src/utils/syncCursors.ts: a write waits for the ones before
-- it, and is a read of the repository followed by a save, between which others may call.
use congenial_giggle.Common.{◌≡◌, refl, ap, sym, ◌∙◌, List, [], ◌∷◌, ◌++◌, Option, none, some}
use congenial_giggle.Utils.SyncCursors.{WalletState, Stored, state_of, update_wallet_state}

module _ (Value : Type 0) where
  abbrev pub Updater : Type 0
  Updater = WalletState Value → WalletState Value

  -- What is stored, what the running write has read, and the writes that wait, the running one
  -- first.
  pub record System : Type 0 where
    pub stored : Stored Value
    pub read : Option (WalletState Value)
    pub waiting : List Updater

module _ {Value : Type 0} where
  -- `Run start saved s`: `s` can be reached from the repository `start`, and `saved` lists the
  -- writes that have succeeded, in the order of their saves. A step is a call of
  -- `updateWalletState`, the read or the save of the write at the head, or the rejection of the
  -- read or of the save, which the chain of promises catches.
  pub data Run (start : Stored Value) : List (Updater Value) → System Value → Type 0 where
    begin : Run start [] (record { stored = start; read = none; waiting = [] })
    call :
        {saved : List (Updater Value)} {s : System Value} (u : Updater Value)
        → Run start saved s
        → Run start saved (record s { waiting = s.waiting ++ (u ∷ []) })
    get_state :
        {saved : List (Updater Value)} {r : Stored Value} {u : Updater Value}
        {us : List (Updater Value)}
        → Run start saved (record { stored = r; read = none; waiting = u ∷ us })
        → Run start saved (record { stored = r; read = some (state_of r); waiting = u ∷ us })
    save_state :
        {saved : List (Updater Value)} {r : Stored Value} {state : WalletState Value}
        {u : Updater Value} {us : List (Updater Value)}
        → Run start saved (record { stored = r; read = some state; waiting = u ∷ us })
        → Run start
            (saved ++ (u ∷ []))
            (record { stored = some (u state); read = none; waiting = us })
    reject :
        {saved : List (Updater Value)} {r : Stored Value} {read : Option (WalletState Value)}
        {u : Updater Value} {us : List (Updater Value)}
        → Run start saved (record { stored = r; read = read; waiting = u ∷ us })
        → Run start saved (record { stored = r; read = none; waiting = us })

  -- The writes one after the other, each as a whole.
  abbrev pub update_all : Stored Value → List (Updater Value) → Stored Value
  update_all repo [] = repo
  update_all repo (u ∷ us) = update_all (update_wallet_state repo u) us

  update_all-append :
      (repo : Stored Value) (us : List (Updater Value)) (u : Updater Value)
      → update_all repo (us ++ (u ∷ [])) ≡ update_wallet_state (update_all repo us) u
  update_all-append repo [] u = refl
  update_all-append repo (v ∷ us) u = update_all-append (update_wallet_state repo v) us u

  -- What the running write has read is what is stored.
  abbrev pub IsCurrent : Stored Value → Option (WalletState Value) → Type 0
  IsCurrent stored none = Unit {0}
  IsCurrent stored (some state) = state ≡ state_of stored

  -- However calls, reads, saves and rejections follow each other, no update is lost: the repository
  -- holds the result of the writes that have succeeded, each applied as a whole to the one before,
  -- and a write that runs has read that.
  pub update_wallet_state-serializes :
      {start : Stored Value} {saved : List (Updater Value)} {s : System Value}
      → Run start saved s
      → (s.stored ≡ update_all start saved) × IsCurrent s.stored s.read
  unfolding update_wallet_state
  update_wallet_state-serializes begin = (refl, tt)
  update_wallet_state-serializes (call u run) = update_wallet_state-serializes run
  update_wallet_state-serializes (get_state run) = ((update_wallet_state-serializes run).0, refl)
  update_wallet_state-serializes {start} (save_state {saved} {r} {state} {u} run) =
      let (same, current) = update_wallet_state-serializes run in
      (
        ap (λ t. some (u t)) current
            ∙ ap (λ t. some (u (state_of t))) same
            ∙ sym (update_all-append start saved u),
        tt,
      )
  update_wallet_state-serializes (reject run) = ((update_wallet_state-serializes run).0, tt)
