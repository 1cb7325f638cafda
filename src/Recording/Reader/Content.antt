-- ===== src/Recording/Reader/Content.antt =====
-- store/mongo/recording_reader.go: sound records, and what the reader hands out of them.
use deviceconnect.Prelude.{
  ℕ, ◌≤◌, ◌<◌, ◌≡◌, refl, sym, ap, ◌≢◌, List, [], ◌∷◌, ◌++◌, length, take, drop, take-append-drop,
  eq-nil_of_length, length-drop, length-take, append_assoc, Option, none, some, false, ltb, arith,
  Bool-cases, inl, inr,
}
use mathlib.Core.Path.{subst}
use deviceconnect.Errors.{Error, Result, ok, err, panic, eof}
use deviceconnect.Recording.Stream.{
  Stream, end, broken, chunk, last, read, is_failure, Cursor, bytes,
}
use deviceconnect.Recording.Reader.{
  RecordingReader, recording_read_buffer_size, begin, open_record, continue_record, read_more,
  deliver, Reading, read_recording, read_next,
}

-- A stream that ends well: no piece is empty, no error comes, and `io.EOF` comes by itself.
abbrev pub IsSound : Stream → Type 0
IsSound end = Unit {0}
IsSound (broken e) = ⊥
IsSound (chunk bs s) = (0 < length bs) × IsSound s
IsSound (last bs) = ⊥

-- A record decodes, is a gzip stream, and holds at least a byte.
abbrev pub IsSoundRecord : Result Stream → Type 0
IsSoundRecord (ok s) = IsSound s × (0 < length (bytes s))
IsSoundRecord _ = ⊥

abbrev pub bytes_of : Result Stream → List ℕ
bytes_of (ok s) = bytes s
bytes_of _ = []

abbrev pub open_bytes : Option Stream → List ℕ
open_bytes none = []
open_bytes (some s) = bytes s

abbrev pub IsOpenSound : Option Stream → Type 0
IsOpenSound none = Unit {0}
IsOpenSound (some s) = IsSound s

read-bytes :
    (n : ℕ) (s : Stream)
    → 0 < n
    → IsSound s
    → let (bs, e, s') = read n s in
      (bs ++ bytes s' ≡ bytes s)
      × IsSound s'
      × (is_failure e ≡ false)
      × (e ≡ none → 0 < length bs)
      × (e ≢ none → (bs ≡ []) × (bytes s ≡ []))
read-bytes n end h v = ground arith
read-bytes n (broken e) h v = absurd v
read-bytes n (chunk bs s) h v = ground (
  arith,
  length-take n bs,
  length-drop n bs,
  append_assoc (take n bs) (drop n bs) (bytes s),
  take-append-drop n bs,
)
read-bytes n (last bs) h v = absurd v

module _ (gunzip : List ℕ → Result Stream) where
  abbrev pub records_bytes : Cursor → List ℕ
  records_bytes [] = []
  records_bytes (ok r ∷ c) = bytes_of (gunzip r) ++ records_bytes c
  records_bytes (_ ∷ c) = records_bytes c

  abbrev pub AllSound : Cursor → Type 0
  AllSound [] = Unit {0}
  AllSound (ok r ∷ c) = IsSoundRecord (gunzip r) × AllSound c
  AllSound (_ ∷ c) = ⊥

  -- The bytes that the reader has still to hand out.
  abbrev pub content : RecordingReader → List ℕ
  content rr = rr.output ++ (open_bytes rr.gzip_reader ++ records_bytes rr.c)

  abbrev pub IsSoundReader : RecordingReader → Type 0
  IsSoundReader rr = IsOpenSound rr.gzip_reader × AllSound rr.c

  -- What a call of `Read` with a buffer of length `size` does where `total` is still to come.
  pub record Reads (size : ℕ) (total : List ℕ) (result : Reading) : Type 0 where
    pub hands_out : result.0 ++ content result.2 ≡ total
    pub sound : IsSoundReader result.2
    pub fits : length result.0 ≤ size
    pub progress : result.1 ≡ none → 0 < size → 0 < length result.0
    pub at_end : result.1 ≢ none → (result.1 ≡ some eof) × (total ≡ [])

  deliver-Reads :
      (size : ℕ) (out : List ℕ) (rr : RecordingReader)
      → 0 < length out
      → IsSoundReader rr
      → Reads size (out ++ (open_bytes rr.gzip_reader ++ records_bytes rr.c)) (deliver size out rr)
  deliver-Reads size out rr h v = ground (
    arith,
    length-take size out,
    length-drop size out,
    take-append-drop size out,
    append_assoc (take size out) (drop size out) (open_bytes rr.gzip_reader ++ records_bytes rr.c),
  )

  -- A piece `out` of a record, and the stream after it.
  piece-Reads :
      (size : ℕ) (out : List ℕ) (rr : RecordingReader) (s s' : Stream)
      → 0 < length out
      → out ++ bytes s' ≡ bytes s
      → IsSound s'
      → AllSound rr.c
      → Reads size
          (bytes s ++ records_bytes rr.c)
          (deliver size out (record rr { gzip_reader = some s' }))
  piece-Reads size out rr s s' h e v vs =
      rw (← e, append_assoc)
        (deliver-Reads size out (record rr { gzip_reader = some s' }) h (v, vs))

  abbrev ReadOf : Stream → List ℕ × Option Error × Stream → Type 0
  ReadOf s (out, e, s') =
      (out ++ bytes s' ≡ bytes s)
      × IsSound s'
      × (is_failure e ≡ false)
      × (e ≡ none → 0 < length out)
      × (e ≢ none → (out ≡ []) × (bytes s ≡ []))

  begin-Reads :
      (size : ℕ) (rr : RecordingReader) (s : Stream) (r : List ℕ × Option Error × Stream)
      → ReadOf s r
      → 0 < length (bytes s)
      → AllSound rr.c
      → Reads size (bytes s ++ records_bytes rr.c) (begin size rr r)
  begin-Reads size rr s (out, none, s') (h, v, f, p, q) pos vs =
      ground (arith, p refl, piece-Reads size out rr s s' (p refl) h v vs)
  begin-Reads size rr s (out, some e, s') (h, v, f, p, q) pos vs =
      absurd (omega (arith, ap length (q (λ n. cc)).1))

  open-Reads :
      (size : ℕ) (rr : RecordingReader) (x : Result Stream)
      → IsSoundRecord x
      → AllSound rr.c
      → Reads size (bytes_of x ++ records_bytes rr.c) (open_record size rr x)
  open-Reads size rr (ok s) (v, pos) vs =
      begin-Reads size rr s (read recording_read_buffer_size s)
        (read-bytes recording_read_buffer_size s (omega arith) v) pos vs
  open-Reads size rr (err e) v vs = absurd v
  open-Reads size rr panic v vs = absurd v

  read_next-Reads :
      (size : ℕ) (rr : RecordingReader) (c : Cursor)
      → AllSound c
      → rr.c ≡ c
      → rr.output ≡ []
      → rr.gzip_reader ≡ none
      → Reads size (records_bytes c) (read_next gunzip size rr c)
  unfolding read_next
  read_next-Reads size rr [] v e o g = record {
    hands_out = simp (o, g, e);
    sound = simp (g, e) (tt, tt);
    fits = omega arith;
    progress = λ n. cc;
    at_end = λ n. (refl, refl);
  }
  read_next-Reads size rr (ok r ∷ c) (v, vs) e o g =
      open-Reads size (record rr { c = c }) (gunzip r) v vs
  read_next-Reads size rr (err x ∷ c) v e o g = absurd v
  read_next-Reads size rr (panic ∷ c) v e o g = absurd v

  continue-Reads :
      (size : ℕ) (rr : RecordingReader) (s : Stream) (r : List ℕ × Option Error × Stream)
      → ReadOf s r
      → AllSound rr.c
      → Reads size (bytes s ++ records_bytes rr.c) (continue_record gunzip size rr r)
  continue-Reads size rr s (out, none, s') (h, v, f, p, q) vs =
      ground (arith, p refl, piece-Reads size out rr s s' (p refl) h v vs)
  continue-Reads size rr s (out, some e, s') (h, v, f, p, q) vs = rw ((q (λ n. cc)).1) (
      ground (
        arith,
        q (λ n. cc),
        read_next-Reads size (record rr { output = []; gzip_reader = none }) rr.c vs refl refl refl,
      ))

  more-Reads :
      (size : ℕ) (rr : RecordingReader) (g : Option Stream)
      → rr.gzip_reader ≡ g
      → rr.output ≡ []
      → IsOpenSound g
      → AllSound rr.c
      → Reads size (open_bytes g ++ records_bytes rr.c) (read_more gunzip size rr g)
  more-Reads size rr none e o v vs = read_next-Reads size rr rr.c vs refl o e
  more-Reads size rr (some s) e o v vs =
      continue-Reads size rr s (read recording_read_buffer_size s)
        (read-bytes recording_read_buffer_size s (omega arith) v) vs

  -- Every call of `Read` on sound records hands out the next bytes of the session, at most as many
  -- as the buffer holds and at least one if it holds any; `io.EOF` comes exactly after the last.
  pub read_recording-Reads :
      (size : ℕ) (rr : RecordingReader)
      → IsSoundReader rr
      → Reads size (content rr) (read_recording gunzip size rr)
  unfolding read_recording
  read_recording-Reads size rr (v, vs) = elim (Bool-cases (ltb (length rr.output) 1)) [
    | inl short ↦
        let o : rr.output ≡ [] = eq-nil_of_length rr.output (ground arith) in
        rw short (
          subst
            (λ out.
              Reads size (out ++ (open_bytes rr.gzip_reader ++ records_bytes rr.c))
                (read_more gunzip size rr rr.gzip_reader))
            (sym o) (more-Reads size rr rr.gzip_reader refl o v vs))
    | inr long ↦ rw long (deliver-Reads size rr.output rr (ground arith) (v, vs))
  ]
