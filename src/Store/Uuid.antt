-- ===== src/Store/Uuid.antt =====
-- store/mongo/bson.go: how UUIDs are written to documents and read from them.
use deviceconnect.Prelude.{
  ℕ, ◌-◌, zero, suc, Bool, true, false, List, [], ◌∷◌, ◌++◌, length, length-append, length-take,
  take, take-all, append-nil, Option, none, some, ◌==◌, if◌then◌else◌, if_elim, ◌≡◌, refl, ap, ◌∙◌,
  arith,
}
use mathlib.Core.Path.{subst}
use deviceconnect.Errors.{Error, Result, ok, err, message}

-- What `r.Type()` says of a value, and what the call gives that reads it: for a binary value the
-- bytes, the subtype and the error of `r.ReadBinary()`.
pub data Value : Type 0 where
  binary : List ℕ → ℕ → Option Error → Value
  undefined_value null_value : Option Error → Value
  other_value : Value

abbrev pub type_binary_generic : ℕ
type_binary_generic = 0

abbrev pub type_binary_uuid_old : ℕ
type_binary_uuid_old = 3

abbrev pub type_binary_uuid : ℕ
type_binary_uuid = 4

abbrev pub zeros : ℕ → List ℕ
zeros zero = []
zeros (suc n) = 0 ∷ zeros n

-- `copy(uid[:], data)` into `uuid.Nil`
abbrev pub copied : List ℕ → List ℕ
copied data_read = take 16 data_read ++ zeros (16 - length data_read)

-- `uuidEncodeValue`; `is_uuid` is `val.IsValid() && val.Type() == tUUID`.
unfoldable pub uuid_encode_value : Bool → List ℕ → Result Value
uuid_encode_value is_uuid uid =
    if is_uuid then ok (binary uid type_binary_uuid none) else err (message "UUIDEncodeValue")

abbrev pub ended : List ℕ → Option Error → Result (List ℕ)
ended uid none = ok uid
ended uid (some e) = err e

-- The `switch` on the subtype, and the end of the function.
abbrev pub decode_binary : List ℕ → ℕ → Option Error → Result (List ℕ)
decode_binary data_read subtype e =
    if subtype == type_binary_generic
    then (if length data_read == 16
        then ended (copied data_read) e
        else err (message "incorrect length"))
    else if subtype == type_binary_uuid
    then ended (copied data_read) e
    else if subtype == type_binary_uuid_old
    then ended (copied data_read) e
    else err (message "incorrect subtype")

-- `uuidDecodeValue`; `can_set` is `val.CanSet() && val.Type() == tUUID`.
unfoldable pub uuid_decode_value : Bool → Value → Result (List ℕ)
uuid_decode_value false v = err (message "UUIDDecodeValue")
uuid_decode_value true (binary data_read subtype e) = decode_binary data_read subtype e
uuid_decode_value true (undefined_value e) = ended (zeros 16) e
uuid_decode_value true (null_value e) = ended (zeros 16) e
uuid_decode_value true other_value = err (message "cannot decode as a UUID")

length-zeros : (n : ℕ) → length (zeros n) ≡ n
length-zeros zero = refl
length-zeros (suc n) = omega (arith, length-zeros n)

length-copied : (bs : List ℕ) → length (copied bs) ≡ 16
length-copied bs = omega (
  arith,
  length-append (take 16 bs) (zeros (16 - length bs)),
  length-take 16 bs,
  length-zeros (16 - length bs),
)

copied_whole : (bs : List ℕ) → length bs ≡ 16 → copied bs ≡ bs
copied_whole bs h =
    let whole : take 16 bs ≡ bs = take-all 16 bs (omega (arith, h)) in
    let rest : 16 - length bs ≡ 0 = omega (arith, h) in
    ap (λ x. x ++ zeros (16 - length bs)) whole ∙ (ap (λ n. bs ++ zeros n) rest ∙ append-nil bs)

Is16 : Result (List ℕ) → Type 0
Is16 (ok uid) = length uid ≡ 16
Is16 _ = Unit {0}

ended-Is16 : (uid : List ℕ) (e : Option Error) → length uid ≡ 16 → Is16 (ended uid e)
unfolding Is16
ended-Is16 uid none h = h
ended-Is16 uid (some e) h = tt

decode-Is16 : (b : Bool) (v : Value) → Is16 (uuid_decode_value b v)
unfolding uuid_decode_value Is16
decode-Is16 false v = tt
decode-Is16 true (binary bs subtype e) =
    if_elim Is16 (subtype == type_binary_generic) _ _
      (λ _.
        if_elim Is16 (length bs == 16) _ _ (λ _. ended-Is16 (copied bs) e (length-copied bs))
          (λ _. tt))
      (λ _.
        if_elim Is16 (subtype == type_binary_uuid) _ _
          (λ _. ended-Is16 (copied bs) e (length-copied bs))
          (λ _.
            if_elim Is16 (subtype == type_binary_uuid_old) _ _
              (λ _. ended-Is16 (copied bs) e (length-copied bs)) (λ _. tt)))
decode-Is16 true (undefined_value e) = ended-Is16 (zeros 16) e refl
decode-Is16 true (null_value e) = ended-Is16 (zeros 16) e refl
decode-Is16 true other_value = tt

uuid_decode_value-encode :
    (uid : List ℕ)
    → length uid ≡ 16
    → uuid_decode_value true (binary uid type_binary_uuid none) ≡ ok uid
unfolding uuid_decode_value
uuid_decode_value-encode uid h = ap ok (copied_whole uid h)

-- Whatever value a document holds, a UUID that is read from it without an error has 16 bytes, and
-- written again it is read back as it is.
pub uuid_encode_value-decode :
    (can_set : Bool) (v : Value) (uid : List ℕ)
    → uuid_decode_value can_set v ≡ ok uid
    → (length uid ≡ 16)
      × ((w : Value) × (uuid_encode_value true uid ≡ ok w) × (uuid_decode_value true w ≡ ok uid))
unfolding uuid_encode_value Is16
uuid_encode_value-decode can_set v uid h =
    let whole : length uid ≡ 16 = subst Is16 h (decode-Is16 can_set v) in
    (whole, (binary uid type_binary_uuid none, refl, uuid_decode_value-encode uid whole))
