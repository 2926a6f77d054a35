-- ===== src/Examples/Wallet.antt =====
-- Notes, cursors, sizes and swaps: runs of the definitions, and the theorems at concrete inputs.
use congenial_giggle.Common.{
  ℕ, ◌+◌, ◌-◌, ◌≡◌, refl, arith, false, List, [], ◌∷◌, ◌++◌, map, none, some, ok, if◌then◌else◌,
  any, All,
}
use congenial_giggle.Common.Results.{◌>>=◌}
use congenial_giggle.Common.Int.{pos}
use congenial_giggle.Extension.Bytes.{IsByte}
use congenial_giggle.Extension.Asset.Hex.{Text}
use congenial_giggle.Extension.Asset.Packet.{same_text}
use congenial_giggle.ArkNote
use congenial_giggle.ArkNote.{ArkNote, Base58, is_space, default_hrp}
use congenial_giggle.ArkNote.Laws as NoteLaws
use congenial_giggle.Utils.SyncCursors
use congenial_giggle.Utils.SyncCursors.{
  Stored, WalletState, update_wallet_state, get_sync_cursor, advance_sync_cursor,
  advance_sync_cursors, clear_sync_cursors, compute_sync_window, cursor_cutoff,
}
use congenial_giggle.Utils.SyncCursors.Laws as CursorLaws
use congenial_giggle.Utils.SyncCursors.Lock
use congenial_giggle.Utils.SyncCursors.Lock.{Run, System, Updater}

-- A text of one character to a byte, in the place of base 58.
shifted : List ℕ → Text
shifted bytes = map (λ b. 0x4000 + b) bytes

unshifted : Text → List ℕ
unshifted s = map (λ c. c - 0x4000) s

unshifted-shifted : (bytes : List ℕ) → unshifted (shifted bytes) ≡ bytes
unfolding unshifted shifted
unshifted-shifted [] = refl
unshifted-shifted (b ∷ bytes) =
    let same : 0x4000 + b - 0x4000 ≡ b = omega arith in λ i. same i ∷ unshifted-shifted bytes i

shifted-plain : (bytes : List ℕ) → All IsByte bytes → All (λ c. is_space c ≡ false) (shifted bytes)
unfolding shifted is_space
shifted-plain [] h = tt
shifted-plain (b ∷ bytes) (p, h) = (ground arith, shifted-plain bytes h)

abbrev base58 : Base58
base58 = record {
  encode = shifted;
  decode = λ s. some (unshifted s);
  decode-encode = λ bytes h. λ i. some (unshifted-shifted bytes i);
  plain = shifted-plain;
}

abbrev preimage : List ℕ
preimage =
    1 ∷ 2 ∷ 3 ∷ 4 ∷ 5 ∷ 6 ∷ 7 ∷ 8 ∷ 9 ∷ 10 ∷ 11 ∷ 12 ∷ 13 ∷ 14 ∷ 15 ∷ 16 ∷ 17 ∷ 18 ∷ 19 ∷ 20 ∷ 21
    ∷ 22 ∷ 23 ∷ 24 ∷ 25 ∷ 26 ∷ 27 ∷ 28 ∷ 29 ∷ 30 ∷ 31 ∷ 255 ∷ []

abbrev note : ArkNote
note = record { preimage = preimage; value = 50000; hrp = default_hrp }

note_bytes : ArkNote.encode note ≡ ok (preimage ++ (0 ∷ 0 ∷ 195 ∷ 80 ∷ []))
unfolding ArkNote.encode ArkNote.write_uint32_be
note_bytes = refl

note-IsValid : NoteLaws.IsValid note
unfolding is_space
note-IsValid = record {
  bytes = omega arith;
  size = refl;
  value_fits = omega arith;
  plain = (refl, (refl, (refl, (refl, (refl, (refl, (refl, tt)))))));
}

ArkNote-round_trip_example :
    (ArkNote.to_string base58 note >>= λ s. ArkNote.from_string base58 s default_hrp) ≡ ok note
ArkNote-round_trip_example = NoteLaws.ArkNote-round_trip base58 note note-IsValid

note_read : ArkNote.decode (preimage ++ (0 ∷ 0 ∷ 195 ∷ 80 ∷ [])) default_hrp ≡ ok note
unfolding ArkNote.decode ArkNote.read_uint32_be
note_read = refl

abbrev script_a : Text
script_a = 97 ∷ []

abbrev script_b : Text
script_b = 98 ∷ []

abbrev stored : Stored ℕ
stored = some (record {
  last_sync_time = none;
  settings = some (record { vtxo_sync_cursors = some ((script_a, pos 5) ∷ []); others = [] });
})

get_sync_cursor-update_example :
    (get_sync_cursor (update_wallet_state stored (advance_sync_cursor script_b (pos 9))) script_a
      ≡ (if same_text script_b script_a then some (pos 9) else get_sync_cursor stored script_a))
    × (get_sync_cursor
          (update_wallet_state stored (advance_sync_cursors ((script_a, pos 7) ∷ [])))
          script_a
        ≡ CursorLaws.or_else
            (CursorLaws.last_of ((script_a, pos 7) ∷ []) script_a)
            (get_sync_cursor stored script_a))
    × (get_sync_cursor
          (update_wallet_state stored (clear_sync_cursors (some (script_b ∷ []))))
          script_a
        ≡ (if any (λ x. same_text x script_a) (script_b ∷ [])
            then none
            else get_sync_cursor stored script_a))
    × (get_sync_cursor (update_wallet_state stored (clear_sync_cursors none)) script_a ≡ none)
get_sync_cursor-update_example =
    CursorLaws.get_sync_cursor-update stored script_b (pos 9) ((script_a, pos 7) ∷ [])
      (script_b ∷ []) script_a

compute_sync_window-cursor_cutoff_example :
    compute_sync_window (some (cursor_cutoff 0 (some 100_000))) ≡ some 10_000
compute_sync_window-cursor_cutoff_example = CursorLaws.compute_sync_window-cursor_cutoff 0 100_000

-- Two writes, the second called while the first runs.
abbrev clear_all : Updater ℕ
clear_all = clear_sync_cursors none

abbrev advance_b : Updater ℕ
advance_b = advance_sync_cursor script_b (pos 9)

update_wallet_state-serializes_example :
    (some (advance_b (clear_all (SyncCursors.state_of stored)))
      ≡ Lock.update_all stored (clear_all ∷ advance_b ∷ []))
    × Unit {0}
update_wallet_state-serializes_example = Lock.update_wallet_state-serializes (
    Run.save_state (
      Run.get_state
        (Run.save_state (Run.call advance_b (Run.get_state (Run.call clear_all Run.begin))))))
