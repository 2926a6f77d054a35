-- ===== src/Utils/SyncCursors/Laws.antt =====
-- What a read returns after a write, and the window of the next query.
use congenial_giggle.Common.{
  ℕ, ◌-◌, ◌≡◌, refl, arith, true, List, [], ◌∷◌, Option, none, some, if◌then◌else◌, any,
}
use congenial_giggle.Common.Int.{ℤ, ◌+ℤ◌}
use congenial_giggle.Extension.Asset.Hex.{Text}
use congenial_giggle.Extension.Asset.Packet.{same_text}
use congenial_giggle.Extension.Asset.Packet.Laws.{same_text_iff}
use congenial_giggle.Utils.SyncCursors.{
  SyncCursors, get, put, put_all, remove, remove_all, Stored, existing_of, with_cursors,
  update_wallet_state, get_all_sync_cursors, get_sync_cursor, advance_sync_cursor,
  advance_sync_cursors, clear_sync_cursors, compute_sync_window, cursor_cutoff,
}

same_text_refl : (s : Text) → same_text s s ≡ true
same_text_refl s = (same_text_iff s s).1 refl

get-put :
    (cursors : SyncCursors) (script : Text) (cursor : ℤ) (s : Text)
    → get (put cursors script cursor) s
      ≡ (if same_text script s then some cursor else get cursors s)
unfolding get put
get-put [] script cursor s = refl
get-put ((key, old) ∷ cursors) script cursor s = ground (
  arith,
  get-put cursors script cursor s,
  same_text_iff key script,
  same_text_iff key s,
  same_text_iff script s,
)

-- The updates as a map: of two updates of one script the last counts.
abbrev pub or_else : Option ℤ → Option ℤ → Option ℤ
or_else none other = other
or_else (some c) other = some c

abbrev pub last_of : SyncCursors → Text → Option ℤ
last_of [] s = none
last_of ((script, cursor) ∷ updates) s =
    or_else (last_of updates s) (if same_text script s then some cursor else none)

get-put_all :
    (cursors updates : SyncCursors) (s : Text)
    → get (put_all cursors updates) s ≡ or_else (last_of updates s) (get cursors s)
unfolding put_all
get-put_all cursors [] s = refl
get-put_all cursors ((script, cursor) ∷ updates) s =
    ground
      (arith, get-put_all (put cursors script cursor) updates s, get-put cursors script cursor s)

get-remove :
    (cursors : SyncCursors) (script s : Text)
    → get (remove cursors script) s ≡ (if same_text script s then none else get cursors s)
unfolding get remove
get-remove [] script s = ground arith
get-remove ((key, cursor) ∷ cursors) script s = ground (
  arith,
  get-remove cursors script s,
  same_text_iff key script,
  same_text_iff key s,
  same_text_iff script s,
)

get-remove_all :
    (cursors : SyncCursors) (scripts : List Text) (s : Text)
    → get (remove_all cursors scripts) s
      ≡ (if any (λ script. same_text script s) scripts then none else get cursors s)
unfolding remove_all
get-remove_all cursors [] s = refl
get-remove_all cursors (script ∷ scripts) s =
    ground (arith, get-remove_all (remove cursors script) scripts s, get-remove cursors script s)

module _ {Value : Type 0} where
  -- What the three writes of the cursors do, from any stored state, to what `getSyncCursor` reads:
  -- one advance changes the script's cursor alone; of several the last for a script counts, and a
  -- script that is not among them keeps its cursor; and clearing forgets the scripts that it names
  -- alone, or all.
  pub get_sync_cursor-update :
      (repo : Stored Value) (script : Text) (cursor : ℤ) (updates : SyncCursors)
      (scripts : List Text) (s : Text)
      → (get_sync_cursor (update_wallet_state repo (advance_sync_cursor script cursor)) s
          ≡ (if same_text script s then some cursor else get_sync_cursor repo s))
        × (get_sync_cursor (update_wallet_state repo (advance_sync_cursors updates)) s
            ≡ or_else (last_of updates s) (get_sync_cursor repo s))
        × (get_sync_cursor (update_wallet_state repo (clear_sync_cursors (some scripts))) s
            ≡ (if any (λ x. same_text x s) scripts then none else get_sync_cursor repo s))
        × (get_sync_cursor (update_wallet_state repo (clear_sync_cursors none)) s ≡ none)
  unfolding get_sync_cursor get_all_sync_cursors update_wallet_state advance_sync_cursor
      advance_sync_cursors clear_sync_cursors with_cursors get
  get_sync_cursor-update none script cursor updates scripts s =
      (get-put [] script cursor s, get-put_all [] updates s, get-remove_all [] scripts s, refl)
  get_sync_cursor-update (some state) script cursor updates scripts s = (
    get-put (existing_of state) script cursor s,
    get-put_all (existing_of state) updates s,
    get-remove_all (existing_of state) scripts s,
    refl,
  )

-- After a sync that began at `started` and advanced a cursor by `cursorCutoff`, the next query asks
-- for all from 90 seconds before `started` on, or from 0 on where there are no 90 seconds.
pub compute_sync_window-cursor_cutoff :
    (now started : ℕ)
    → compute_sync_window (some (cursor_cutoff now (some started))) ≡ some (started - 90_000)
unfolding compute_sync_window cursor_cutoff ◌+ℤ◌
compute_sync_window-cursor_cutoff now started = ground arith
