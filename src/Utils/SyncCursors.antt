-- ===== src/Utils/SyncCursors.antt =====
-- packages/ts-sdk/src/utils/syncCursors.ts: the high-water marks of the scripts, which the wallet
-- state keeps among its settings, and the lock that orders the writes of that state.
pub mod Laws
pub mod Lock
use congenial_giggle.Common.{
  ℕ, ◌+◌, ◌-◌, ◌==◌, ltb, Bool, true, false, ◌&&◌, List, [], ◌∷◌, ◌++◌, Option, none, some,
  if◌then◌else◌, leb,
}
use congenial_giggle.Common.Int.{ℤ, pos, negsuc, ◌+ℤ◌, ltb_ℤ}
use congenial_giggle.Extension.Asset.Hex.{Text}
use congenial_giggle.Extension.Asset.Packet.{same_text}

abbrev pub safety_lag_ms : ℕ
safety_lag_ms = 30_000

abbrev pub overlap_ms : ℕ
overlap_ms = 60_000

-- An object from scripts to cursors: its properties in the order of their creation.
abbrev pub SyncCursors : Type 0
SyncCursors = List (Text × ℤ)

-- Reading a property: `none` is `undefined`.
unfoldable pub get : SyncCursors → Text → Option ℤ
get [] script = none
get ((key, cursor) ∷ cursors) script =
    let rest = get cursors script in if same_text key script then some cursor else rest

-- `{ ...cursors, [script]: cursor }`
unfoldable pub put : SyncCursors → Text → ℤ → SyncCursors
put [] script cursor = (script, cursor) ∷ []
put ((key, old) ∷ cursors) script cursor =
    let rest = put cursors script cursor in
    if same_text key script then (key, cursor) ∷ cursors else (key, old) ∷ rest

-- `{ ...cursors, ...updates }`
unfoldable pub put_all : SyncCursors → SyncCursors → SyncCursors
put_all cursors [] = cursors
put_all cursors ((script, cursor) ∷ updates) = put_all (put cursors script cursor) updates

-- `delete cursors[script]`
unfoldable pub remove : SyncCursors → Text → SyncCursors
remove [] script = []
remove ((key, cursor) ∷ cursors) script =
    let rest = remove cursors script in if same_text key script then rest else (key, cursor) ∷ rest

unfoldable pub remove_all : SyncCursors → List Text → SyncCursors
remove_all cursors [] = cursors
remove_all cursors (script ∷ scripts) = remove_all (remove cursors script) scripts

module _ (Value : Type 0) where
  -- `settings` of the wallet state: the cursors, and the other properties.
  pub record Settings : Type 0 where
    pub vtxo_sync_cursors : Option SyncCursors
    pub others : List (Text × Value)

  pub record WalletState : Type 0 where
    pub last_sync_time : Option ℕ
    pub settings : Option Settings

  -- What the repository keeps; `getWalletState` returns null where nothing is kept.
  abbrev pub Stored : Type 0
  Stored = Option WalletState

abbrev pub cursors_or_empty : Option SyncCursors → SyncCursors
cursors_or_empty none = []
cursors_or_empty (some cursors) = cursors

module _ {Value : Type 0} where
  -- `state ?? {}`
  abbrev pub state_of : Stored Value → WalletState Value
  state_of none = record { last_sync_time = none; settings = none }
  state_of (some state) = state

  -- `state.settings ?? {}`, and what spreading `undefined` gives.
  abbrev pub settings_of : Option (Settings Value) → Settings Value
  settings_of none = record { vtxo_sync_cursors = none; others = [] }
  settings_of (some settings) = settings

  -- `state.settings?.vtxoSyncCursors ?? {}`
  abbrev pub existing_of : WalletState Value → SyncCursors
  existing_of state = cursors_or_empty (settings_of state.settings).vtxo_sync_cursors

  -- The state with other cursors, all else kept.
  unfoldable pub with_cursors : WalletState Value → Option SyncCursors → WalletState Value
  with_cursors state cursors = record state {
    settings = some (record (settings_of state.settings) { vtxo_sync_cursors = cursors });
  }

  -- The write of `updateWalletState`, by itself; Lock.antt has the order of the writes.
  unfoldable pub update_wallet_state :
      Stored Value → (WalletState Value → WalletState Value) → Stored Value
  update_wallet_state repo updater = some (updater (state_of repo))

  unfoldable pub get_all_sync_cursors : Stored Value → SyncCursors
  get_all_sync_cursors none = []
  get_all_sync_cursors (some state) = existing_of state

  unfoldable pub get_sync_cursor : Stored Value → Text → Option ℤ
  get_sync_cursor repo script = get (get_all_sync_cursors repo) script

  unfoldable pub advance_sync_cursor : Text → ℤ → WalletState Value → WalletState Value
  advance_sync_cursor script cursor state =
      with_cursors state (some (put (existing_of state) script cursor))

  unfoldable pub advance_sync_cursors : SyncCursors → WalletState Value → WalletState Value
  advance_sync_cursors updates state =
      with_cursors state (some (put_all (existing_of state) updates))

  unfoldable pub clear_sync_cursors : Option (List Text) → WalletState Value → WalletState Value
  clear_sync_cursors none state = with_cursors state none
  clear_sync_cursors (some scripts) state =
      with_cursors state (some (remove_all (existing_of state) scripts))

-- `Math.max(0, cursor - OVERLAP_MS)`
unfoldable pub compute_sync_window : Option ℤ → Option ℕ
compute_sync_window none = none
compute_sync_window (some (pos cursor)) = some (cursor - overlap_ms)
compute_sync_window (some (negsuc cursor)) = some 0

-- `(requestStartedAt ?? Date.now()) - SAFETY_LAG_MS`
unfoldable pub cursor_cutoff : ℕ → Option ℕ → ℤ
cursor_cutoff now none = pos now +ℤ negsuc 29_999
cursor_cutoff now (some request_started_at) = pos request_started_at +ℤ negsuc 29_999
