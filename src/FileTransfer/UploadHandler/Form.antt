-- ===== src/FileTransfer/UploadHandler/Form.antt =====
-- api/http/management_filetransfer.go: `parseUploadFileRequest`, the reading of the form of an
-- upload, and model/filetransfer.go: `UploadFileRequest.Validate`. `atoi` and `parse_octal` are
-- `strconv.Atoi` and `strconv.ParseUint(_, 8, 32)`.
use deviceconnect.Prelude.{
  ℕ, ◌-◌, ◌%◌, ◌^◌, ◌<◌, String, List, [], ◌∷◌, Option, none, some, Bool, true, false, not, ◌&&◌,
  str_eq, starts_with, if◌then◌else◌, if_elim, ◌≡◌, arith,
}
use mathlib.Core.Path.{subst}
use deviceconnect.Errors.{Error, Result, ok, err, panic}

-- Go's `int`.
pub data ℤ : Type 0 where
  pos negsuc : ℕ → ℤ

-- `uint32(v)`
abbrev pub uint32 : ℤ → ℕ
uint32 (pos n) = n % 2 ^ 32
uint32 (negsuc n) = 2 ^ 32 - 1 - n % 2 ^ 32

-- A part of the form: its name, its file's name, what one call of `Read` gives, and whether that
-- call ended without an error or with `io.EOF`.
pub record Part : Type 0 where
  pub form_name : String
  pub file_name : String
  pub content : String
  pub was_read : Bool

-- What `reader.NextPart` gives; after the last of them it gives `io.EOF`.
pub data NextPart : Type 0 where
  part : Part → NextPart
  broken : Error → NextPart

-- `model.UploadFileRequest`; of the file it matters whether it is there.
pub record UploadFileRequest : Type 0 where
  pub src_path : Option String
  pub path : Option String
  pub uid : Option ℕ
  pub gid : Option ℕ
  pub mode : Option ℕ
  pub has_file : Bool

abbrev pub new_request : UploadFileRequest
new_request = record {
  src_path = none;
  path = none;
  uid = none;
  gid = none;
  mode = none;
  has_file = false;
}

abbrev pub mapped : {A : Type 0} {B : Type 0} → (A → B) → Result A → Result B
mapped f (ok a) = ok (f a)
mapped f (err e) = err e
mapped f panic = panic

module _ (atoi : String → Result ℤ) (parse_octal : String → Result ℕ) where
  -- The `switch` on the name of a part.
  abbrev pub parse_part : Part → UploadFileRequest → Result UploadFileRequest
  parse_part p r =
      if str_eq p.form_name "path"
      then ok (record r { path = some (if p.was_read then p.content else "") })
      else if str_eq p.form_name "uid"
      then mapped (λ v. record r { uid = some (uint32 v) }) (atoi p.content)
      else if str_eq p.form_name "gid"
      then mapped (λ v. record r { gid = some (uint32 v) }) (atoi p.content)
      else if str_eq p.form_name "mode"
      then mapped (λ v. record r { mode = some (v % 2 ^ 32) }) (parse_octal p.content)
      else if str_eq p.form_name "file"
      then ok (record r { src_path = some p.file_name; has_file = true })
      else ok r

  -- The loop; `parsed` is what became of the part that was just read.
  unfoldable pub parse_parts : List NextPart → UploadFileRequest → Result UploadFileRequest
  parse_parts [] r = ok r
  parse_parts (broken e ∷ parts) r = err e
  parse_parts (part p ∷ parts) r = elim (parse_part p r) [
    | ok r' ↦ (if r'.has_file then ok r' else parse_parts parts r')
    | err e ↦ err e
    | panic ↦ panic
  ]

  -- `parseUploadFileRequest`; `reader` is what `c.Request.MultipartReader` gives.
  unfoldable pub parse_upload_file_request : Result (List NextPart) → Result UploadFileRequest
  unfolding parse_parts
  parse_upload_file_request (ok parts) = parse_parts parts new_request
  parse_upload_file_request (err e) = err e
  parse_upload_file_request panic = panic

uint32_lt : (v : ℤ) → uint32 v < 2 ^ 32
uint32_lt (pos n) = omega arith
uint32_lt (negsuc n) = omega arith

-- A number that is there fits an unsigned integer of 32 bits.
abbrev pub IsUint32 : Option ℕ → Type 0
IsUint32 none = Unit {0}
IsUint32 (some n) = n < 2 ^ 32

abbrev pub IsNarrow : UploadFileRequest → Type 0
IsNarrow r = IsUint32 r.uid × IsUint32 r.gid × IsUint32 r.mode

-- The request that was read, if any, is narrow.
abbrev IsNarrowResult : Result UploadFileRequest → Type 0
IsNarrowResult (ok r) = IsNarrow r
IsNarrowResult _ = Unit {0}

module _ (atoi : String → Result ℤ) (parse_octal : String → Result ℕ) where
  parse_part-IsNarrow :
      (p : Part) (r : UploadFileRequest)
      → IsNarrow r
      → IsNarrowResult (parse_part atoi parse_octal p r)
  parse_part-IsNarrow p r (u, g, m) =
      if_elim IsNarrowResult (str_eq p.form_name "path") _ _ (λ _. (u, g, m))
        (λ _.
          if_elim IsNarrowResult (str_eq p.form_name "uid") _ _ (λ _. by_uid (atoi p.content))
            (λ _.
              if_elim IsNarrowResult (str_eq p.form_name "gid") _ _ (λ _. by_gid (atoi p.content))
                (λ _.
                  if_elim IsNarrowResult (str_eq p.form_name "mode") _ _
                    (λ _. by_mode (parse_octal p.content))
                    (λ _.
                      if_elim IsNarrowResult (str_eq p.form_name "file") _ _ (λ _. (u, g, m))
                        (λ _. (u, g, m))))))
    where
      by_uid : (x : Result ℤ) → IsNarrowResult (mapped (λ v. record r { uid = some (uint32 v) }) x)
      by_uid (ok v) = (uint32_lt v, g, m)
      by_uid (err e) = tt
      by_uid panic = tt

      by_gid : (x : Result ℤ) → IsNarrowResult (mapped (λ v. record r { gid = some (uint32 v) }) x)
      by_gid (ok v) = (u, uint32_lt v, m)
      by_gid (err e) = tt
      by_gid panic = tt

      by_mode :
          (x : Result ℕ) → IsNarrowResult (mapped (λ v. record r { mode = some (v % 2 ^ 32) }) x)
      by_mode (ok v) = (u, g, omega arith)
      by_mode (err e) = tt
      by_mode panic = tt

  parse_parts-IsNarrow :
      (parts : List NextPart) (r : UploadFileRequest)
      → IsNarrow r
      → IsNarrowResult (parse_parts atoi parse_octal parts r)
  unfolding parse_parts
  parse_parts-IsNarrow [] r n = n
  parse_parts-IsNarrow (broken e ∷ parts) r n = tt
  parse_parts-IsNarrow (part p ∷ parts) r n =
      by_part (parse_part atoi parse_octal p r) (parse_part-IsNarrow p r n)
        (λ q k. parse_parts-IsNarrow parts q k)
    where
      by_part :
          (x : Result UploadFileRequest)
          → IsNarrowResult x
          → ((q : UploadFileRequest)
              → IsNarrow q
              → IsNarrowResult (parse_parts atoi parse_octal parts q))
          → IsNarrowResult (elim x as (λ _. Result UploadFileRequest) [
            | ok r' ↦ (if r'.has_file then ok r' else parse_parts atoi parse_octal parts r')
            | err e ↦ err e
            | panic ↦ panic
          ])
      by_part (ok q) k ih = if_elim IsNarrowResult q.has_file _ _ (λ _. k) (λ _. ih q k)
      by_part (err e) k ih = tt
      by_part panic k ih = tt

  -- Whatever the parsing of numbers gives, the user, the group and the mode of an upload fit unsigned
  -- integers of 32 bits.
  pub parse_upload_file_request-IsNarrow :
      (reader : Result (List NextPart)) (r : UploadFileRequest)
      → parse_upload_file_request atoi parse_octal reader ≡ ok r
      → IsNarrow r
  unfolding parse_upload_file_request
  parse_upload_file_request-IsNarrow (ok parts) r h =
      subst IsNarrowResult h (parse_parts-IsNarrow parts new_request (tt, tt, tt))
  parse_upload_file_request-IsNarrow (err e) r h = absurd cc
  parse_upload_file_request-IsNarrow panic r h = absurd cc

-- `Validate`: `none` of the path is refused like the empty one.
abbrev pub is_valid_upload : UploadFileRequest → Bool
is_valid_upload r =
    (elim r.path [ some path ↦ not (str_eq path "") && starts_with path "/" | none ↦ false ])
    && r.has_file
