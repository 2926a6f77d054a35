-- ===== src/Scripts/Address.antt =====
-- packages/ts-sdk/src/script/address.ts. Bech32m of the package @scure/base is a parameter.
use congenial_giggle.Common.{
  ℕ, ◌%◌, ◌<◌, ◌≡◌, refl, ap, arith, Bool, true, List, [], ◌∷◌, ◌++◌, Option, none, some, Result,
  ok, err, ◌==◌, bind, if◌then◌else◌, length, take, drop, take-append, drop-append, length-append,
  All, All-append,
}
use congenial_giggle.Common.Results.{◌>>=◌}
use congenial_giggle.Extension.Asset.Hex.{Text}
use congenial_giggle.Extension.Bytes.{IsByte}
use congenial_giggle.Extension.Script.{ScriptEncoder, op, op_return, pushed}

-- `none` is a throw, or a text that does not decode. With a prefix that the format takes, what is
-- encoded of 65 bytes decodes again.
pub record Bech32m : Type 0 where
  pub to_words : List ℕ → List ℕ
  pub from_words : List ℕ → Option (List ℕ)
  pub encode : Text → List ℕ → Option Text
  pub decode_unsafe : Text → Option (Text × List ℕ)
  pub is_prefix : Text → Bool
  pub from_words-to_words :
      (bytes : List ℕ) → All IsByte bytes → from_words (to_words bytes) ≡ some bytes
  pub decode_unsafe-encode :
      (prefix : Text) (bytes : List ℕ)
      → is_prefix prefix ≡ true
      → length bytes ≡ 65
      → bind (encode prefix (to_words bytes)) decode_unsafe ≡ some (prefix, to_words bytes)

pub record ArkAddress : Type 0 where
  pub server_pub_key : List ℕ
  pub vtxo_taproot_key : List ℕ
  pub hrp : Text
  pub version : ℕ

pub data Error : Type 0 where
  invalid_server_key invalid_vtxo_key : ℕ → Error
  invalid_address : Error
  invalid_data_length : ℕ → Error
  -- thrown by the package
  not_words not_encodable : Error

-- The constructor.
unfoldable pub new : List ℕ → List ℕ → Text → ℕ → Result Error ArkAddress
new server_pub_key vtxo_taproot_key hrp version =
    if length server_pub_key == 32
    then if length vtxo_taproot_key == 32
      then ok (record {
        server_pub_key = server_pub_key;
        vtxo_taproot_key = vtxo_taproot_key;
        hrp = hrp;
        version = version;
      })
      else err (invalid_vtxo_key (length vtxo_taproot_key))
    else err (invalid_server_key (length server_pub_key))

-- `data[0]`
abbrev first : List ℕ → ℕ
first [] = 0
first (b ∷ bytes) = b

abbrev pub or_throw {ℓ} : {A : Type ℓ} → Option A → Error → Result Error A
or_throw none e = err e
or_throw (some a) e = ok a

unfoldable pub of_data : Text → List ℕ → Result Error ArkAddress
unfolding new
of_data prefix bytes =
    if length bytes == 65
    then new (take 32 (drop 1 bytes)) (take 32 (drop 33 bytes)) prefix (first bytes)
    else err (invalid_data_length (length bytes))

-- `data[0] = this.version` keeps the low byte.
abbrev pub payload : ArkAddress → List ℕ
payload a = (a.version % 256) ∷ (a.server_pub_key ++ a.vtxo_taproot_key)

module _ (bech32m : Bech32m) where
  unfoldable pub decode : Text → Result Error ArkAddress
  decode address = do
    (prefix, words) ← or_throw (bech32m.decode_unsafe address) invalid_address
    bytes ← or_throw (bech32m.from_words words) not_words
    of_data prefix bytes

  unfoldable pub encode : ArkAddress → Result Error Text
  encode a = or_throw (bech32m.encode a.hrp (bech32m.to_words (payload a))) not_encodable

unfoldable pub pk_script : ScriptEncoder → ArkAddress → List ℕ
pk_script script a = script.encode (op (79 ∷ 80 ∷ 95 ∷ 49 ∷ []) ∷ pushed a.vtxo_taproot_key ∷ [])

unfoldable pub subdust_pk_script : ScriptEncoder → ArkAddress → List ℕ
subdust_pk_script script a = script.encode (op_return ∷ pushed a.vtxo_taproot_key ∷ [])

-- What the constructor lets through, of bytes, with a version of one byte.
pub record IsAddress (a : ArkAddress) : Type 0 where
  pub server_size : length a.server_pub_key ≡ 32
  pub vtxo_size : length a.vtxo_taproot_key ≡ 32
  pub server_bytes : All IsByte a.server_pub_key
  pub vtxo_bytes : All IsByte a.vtxo_taproot_key
  pub one_byte : a.version < 256

take-server : (server vtxo : List ℕ) → length server ≡ 32 → take 32 (server ++ vtxo) ≡ server
take-server server vtxo e = rw (← e) (take-append server vtxo)

take-length : (xs : List ℕ) → take (length xs) xs ≡ xs
take-length [] = refl
take-length (x ∷ xs) = ap (λ t. x ∷ t) (take-length xs)

drop-server : (server vtxo : List ℕ) → length server ≡ 32 → drop 32 (server ++ vtxo) ≡ vtxo
drop-server server vtxo e = rw (← e) (drop-append server vtxo)

take-key : (key : List ℕ) → length key ≡ 32 → take 32 key ≡ key
take-key key e = rw (← e) (take-length key)

take-vtxo :
    (server vtxo : List ℕ)
    → length server ≡ 32
    → length vtxo ≡ 32
    → take 32 (drop 32 (server ++ vtxo)) ≡ vtxo
take-vtxo server vtxo e e' = rw (drop-server server vtxo e) (take-key vtxo e')

of_data-payload : (a : ArkAddress) → IsAddress a → of_data a.hrp (payload a) ≡ ok a
unfolding of_data
of_data-payload a h = ground (
  arith,
  take-server a.server_pub_key a.vtxo_taproot_key,
  take-vtxo a.server_pub_key a.vtxo_taproot_key,
  length-append a.server_pub_key a.vtxo_taproot_key,
)

decode_from :
    (bech32m : Bech32m) (o : Option Text) (prefix : Text) (words bytes : List ℕ) (a : ArkAddress)
    → bind o bech32m.decode_unsafe ≡ some (prefix, words)
    → bech32m.from_words words ≡ some bytes
    → of_data prefix bytes ≡ ok a
    → (or_throw o not_encodable >>= decode bech32m) ≡ ok a
unfolding decode
decode_from bech32m none prefix words bytes a h k e = absurd (cc)
decode_from bech32m (some t) prefix words bytes a h k e = simp (h, k, e)

payload_bytes : (a : ArkAddress) → IsAddress a → All IsByte (payload a)
payload_bytes a h =
    (omega arith, All-append IsByte a.server_pub_key a.vtxo_taproot_key h.server_bytes h.vtxo_bytes)

-- An address of keys of 32 bytes and a version below 256, with a prefix that the format takes,
-- decodes again from its encoding.
pub decode-encode :
    (bech32m : Bech32m) (a : ArkAddress)
    → IsAddress a
    → bech32m.is_prefix a.hrp ≡ true
    → (encode bech32m a >>= decode bech32m) ≡ ok a
unfolding encode decode
decode-encode bech32m a h p =
    let size : length (payload a) ≡ 65 =
      omega
        (arith, length-append a.server_pub_key a.vtxo_taproot_key, h.server_size, h.vtxo_size) in
    decode_from bech32m _ a.hrp (bech32m.to_words (payload a)) (payload a) a
      (bech32m.decode_unsafe-encode a.hrp (payload a) p size)
      (bech32m.from_words-to_words (payload a) (payload_bytes a h)) (of_data-payload a h)
