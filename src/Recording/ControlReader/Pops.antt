-- ===== src/Recording/ControlReader/Pops.antt =====
-- store/mongo/control_reader.go: what a run of `Pop` calls gives.
use deviceconnect.Prelude.{
  ℕ, zero, suc, ◌+◌, ◌-◌, ◌≤◌, ◌<◌, ◌≡◌, refl, ap, ◌∙◌, List, [], ◌∷◌, ◌++◌, length, take, drop,
  get_elem?-drop, drop-drop, drop-append, length-append, length-drop, length-take, take-append_more,
  take-append_less, append_assoc, Option, none, some, true, arith,
}
use native.Mathlib.Nat.{suc-add}
use deviceconnect.Prelude.{eq-nil_of_length}
use deviceconnect.Errors.{Result, ok}
use deviceconnect.Control.{
  Control, zero_control, delay_message, resize_message, marshal_binary, unmarshal_binary,
}
use deviceconnect.Control.RoundTrip.{IsControl, delay, resize, unmarshal_binary-marshal_binary}
use deviceconnect.Recording.Stream.{Stream, end, chunk, read, Cursor}
use deviceconnect.Recording.ControlReader.{
  ControlMessageReader, first_read, control_read_buffer_size, new_control_message_reader, pop,
  advance,
}

-- What `n` calls of `Pop` give, one after another, whatever each of them gives.
unfoldable pub pops : ℕ → ControlMessageReader → List (Result (Option Control))
pops zero r = []
pops (suc n) r = let (x, r') = pop r in x ∷ pops n r'

-- The results of calls that give messages, and of calls that give nil.
abbrev pub messages : List Control → List (Result (Option Control))
messages [] = []
messages (c ∷ cs) = ok (some c) ∷ messages cs

abbrev pub nils : ℕ → List (Result (Option Control))
nils zero = []
nils (suc n) = ok none ∷ nils n

-- The bytes that the recorder writes for the messages, one after another.
abbrev pub marshal_all : List Control → List ℕ
marshal_all [] = []
marshal_all (c ∷ cs) = marshal_binary c ++ marshal_all cs

abbrev pub All : {A : Type 0} → (A → Type 0) → List A → Type 0
All P [] = Unit {0}
All P (x ∷ xs) = P x × All P xs

module _ (c : Control) (rest : List ℕ) (r : ControlMessageReader) where
  decode_delay :
      r.live ≡ true
      → c.type ≡ delay_message
      → drop r.current_offset r.output ≡ marshal_binary c ++ rest
      → unmarshal_binary zero_control (marshal_binary c ++ rest) ≡ ok c
      → pop r ≡ (ok (some c), advance r (r.current_offset + length (marshal_binary c)))
  unfolding pop marshal_binary
  decode_delay l t d u = ground (
    arith,
    get_elem?-drop r.current_offset r.output,
    ap length d,
    length-drop r.current_offset r.output,
  )

  decode_resize :
      r.live ≡ true
      → c.type ≡ resize_message
      → drop r.current_offset r.output ≡ marshal_binary c ++ rest
      → unmarshal_binary zero_control (marshal_binary c ++ rest) ≡ ok c
      → pop r ≡ (ok (some c), advance r (r.current_offset + length (marshal_binary c)))
  unfolding pop marshal_binary
  decode_resize l t d u = ground (
    arith,
    get_elem?-drop r.current_offset r.output,
    ap length d,
    length-drop r.current_offset r.output,
  )

  -- `Pop` takes a whole message off the buffer.
  pop_message :
      r.live ≡ true
      → IsControl c
      → drop r.current_offset r.output ≡ marshal_binary c ++ rest
      → pop r ≡ (ok (some c), advance r (r.current_offset + length (marshal_binary c)))
  pop_message l v d = by_type v
    where
      u : unmarshal_binary zero_control (marshal_binary c ++ rest) ≡ ok c
      u = unmarshal_binary-marshal_binary c rest v

      by_type :
          IsControl c
          → pop r ≡ (ok (some c), advance r (r.current_offset + length (marshal_binary c)))
      by_type (delay t _ _ _ _) = decode_delay l t d u
      by_type (resize t _ _ _ _) = decode_resize l t d u

  drop_message :
      drop r.current_offset r.output ≡ marshal_binary c ++ rest
      → drop (r.current_offset + length (marshal_binary c)) r.output ≡ rest
  drop_message d =
      drop-drop r.current_offset (length (marshal_binary c)) r.output
      ∙ ap (drop (length (marshal_binary c))) d
      ∙ drop-append (marshal_binary c) rest

  -- What is left in the buffer after the message, and what stays as it was.
  advance_rest :
      drop r.current_offset r.output ≡ marshal_binary c ++ rest
      → let r' = advance r (r.current_offset + length (marshal_binary c)) in
        (drop r'.current_offset r'.output ≡ rest)
        × (r'.live ≡ r.live)
        × (r'.gzip_reader ≡ r.gzip_reader)
        × (0 < length rest → r'.output ≡ r.output)
        × (rest ≡ [] → r'.output ≡ [])
  advance_rest d = ground (
    arith,
    ap length d,
    drop_message d,
    length-append (marshal_binary c) rest,
    length-drop r.current_offset r.output,
    eq-nil_of_length rest,
  )

zero-add : (k : ℕ) → 0 + k ≡ k
zero-add k = omega arith

-- A buffer that is empty, at the end of the stream, stays so, and gives nil.
pop_drained :
    (r : ControlMessageReader)
    → r.gzip_reader ≡ end
    → r.output ≡ []
    → ((pop r).0 ≡ ok none) × ((pop r).1.gzip_reader ≡ end) × ((pop r).1.output ≡ [])
unfolding pop
pop_drained r e o = ground arith

pops_drained :
    (n : ℕ) (r : ControlMessageReader) → r.gzip_reader ≡ end → r.output ≡ [] → pops n r ≡ nils n
unfolding pops
pops_drained zero r e o = refl
pops_drained (suc n) r e o =
    let (nil, e', o') = pop_drained r e o in
    rw nil (ap (λ xs. ok none ∷ xs) (pops_drained n (pop r).1 e' o'))

-- A reader that gives nil and stays as it is gives nil for ever.
pops_stuck : (n : ℕ) (r : ControlMessageReader) → pop r ≡ (ok none, r) → pops n r ≡ nils n
unfolding pops
pops_stuck zero r h = refl
pops_stuck (suc n) r h = rw h (ap (λ rs. ok none ∷ rs) (pops_stuck n r h))

pops-cons :
    (n : ℕ) (r r' : ControlMessageReader) (c : Control)
    → pop r ≡ (ok (some c), r')
    → pops (suc n) r ≡ ok (some c) ∷ pops n r'
unfolding pops
pops-cons n r r' c e = ap (λ x. x.0 ∷ pops n x.1) e

-- A buffer that holds whole messages, with nothing more in the stream, gives exactly these.
pub pops_whole :
    (cs : List Control) (k : ℕ) (r : ControlMessageReader)
    → r.live ≡ true
    → r.gzip_reader ≡ end
    → All IsControl cs
    → drop r.current_offset r.output ≡ marshal_all cs
    → (marshal_all cs ≡ [] → r.output ≡ [])
    → pops (length cs + k) r ≡ messages cs ++ nils k
pops_whole [] k r l e v d o = rw (zero-add k) (pops_drained k r e (o refl))
pops_whole (c ∷ cs) k r l e (v, vs) d o =
    let r' = advance r (r.current_offset + length (marshal_binary c)) in
    let a = advance_rest c (marshal_all cs) r d in
    rw suc-add (
      pops-cons (length cs + k) r r' c (pop_message c (marshal_all cs) r l v d)
      ∙ ap (λ xs. ok (some c) ∷ xs) (pops_whole cs k r' (a.1 ∙ l) (a.2 ∙ e) vs a.0 a.4))

pop_partial_delay :
    (r : ControlMessageReader) (c : Control) (j : ℕ)
    → c.type ≡ delay_message
    → j < 6
    → 3 ≤ length r.output
    → drop r.current_offset r.output ≡ take (suc j) (marshal_binary c)
    → pop r ≡ (ok none, r)
unfolding pop marshal_binary
pop_partial_delay r c j t h l e = ground (
  arith,
  get_elem?-drop r.current_offset r.output,
  ap length e,
  length-take (suc j) (marshal_binary c),
  length-drop r.current_offset r.output,
)

pop_partial_resize :
    (r : ControlMessageReader) (c : Control) (j : ℕ)
    → c.type ≡ resize_message
    → j < 8
    → 3 ≤ length r.output
    → drop r.current_offset r.output ≡ take (suc j) (marshal_binary c)
    → pop r ≡ (ok none, r)
unfolding pop marshal_binary
pop_partial_resize r c j t h l e = ground (
  arith,
  get_elem?-drop r.current_offset r.output,
  ap length e,
  length-take (suc j) (marshal_binary c),
  length-drop r.current_offset r.output,
)

length-delay : (c : Control) → c.type ≡ delay_message → length (marshal_binary c) ≡ 7
unfolding marshal_binary
length-delay c t = ground arith

length-resize : (c : Control) → c.type ≡ resize_message → length (marshal_binary c) ≡ 9
unfolding marshal_binary
length-resize c t = ground arith

pop_partial :
    (r : ControlMessageReader) (c : Control) (j : ℕ)
    → IsControl c
    → suc j < length (marshal_binary c)
    → 3 ≤ length r.output
    → drop r.current_offset r.output ≡ take (suc j) (marshal_binary c)
    → pop r ≡ (ok none, r)
pop_partial r c j (delay t _ _ _ _) h l e =
    pop_partial_delay r c j t (omega (arith, length-delay c t)) l e
pop_partial r c j (resize t _ _ _ _) h l e =
    pop_partial_resize r c j t (omega (arith, length-resize c t)) l e

-- A buffer that ends inside a message gives the messages before it, and nothing after them.
pub pops_cut :
    (cs : List Control) (k : ℕ) (r : ControlMessageReader) (c : Control) (j : ℕ)
    → r.live ≡ true
    → 3 ≤ length r.output
    → All IsControl cs
    → IsControl c
    → suc j < length (marshal_binary c)
    → drop r.current_offset r.output ≡ marshal_all cs ++ take (suc j) (marshal_binary c)
    → pops (length cs + k) r ≡ messages cs ++ nils k
pops_cut [] k r c j l m v vc h d = rw (zero-add k) (pops_stuck k r (pop_partial r c j vc h m d))
pops_cut (b ∷ cs) k r c j l m (v, vs) vc h d =
    let rest = marshal_all cs ++ take (suc j) (marshal_binary c) in
    let d' =
      d ∙ append_assoc (marshal_binary b) (marshal_all cs) (take (suc j) (marshal_binary c)) in
    let r' = advance r (r.current_offset + length (marshal_binary b)) in
    let a = advance_rest b rest r d' in
    let some_left : 0 < length rest = omega (
      arith,
      length-append (marshal_all cs) (take (suc j) (marshal_binary c)),
      length-take (suc j) (marshal_binary c),
    ) in
    let m' : 3 ≤ length r'.output = rw (a.3 some_left) m in
    rw suc-add (
      pops-cons (length cs + k) r r' b (pop_message b rest r l v d')
      ∙ ap (λ xs. ok (some b) ∷ xs) (pops_cut cs k r' c j (a.1 ∙ l) m' vs vc h a.0))

read_overflow :
    (n : ℕ) (bs : List ℕ) (s : Stream)
    → n < length bs
    → read n (chunk bs s) ≡ (take n bs, none, chunk (drop n bs) s)
read_overflow n bs s h = ground arith

module _ (gunzip : List ℕ → Result Stream) (control : List ℕ) (c : Cursor) where
  new_fits :
      (bs : List ℕ)
      → length bs ≤ control_read_buffer_size
      → gunzip control ≡ ok (chunk bs end)
      → new_control_message_reader gunzip (ok control ∷ c)
        ≡ record { live = true; current_offset = 0; output = bs; gzip_reader = end }
  unfolding new_control_message_reader
  new_fits bs h g = ground arith

  new_overflows :
      (bs : List ℕ) (s : Stream)
      → control_read_buffer_size < length bs
      → gunzip control ≡ ok (chunk bs s)
      → new_control_message_reader gunzip (ok control ∷ c) ≡ record {
        live = true;
        current_offset = 0;
        output = take control_read_buffer_size bs;
        gzip_reader = chunk (drop control_read_buffer_size bs) s;
      }
  unfolding new_control_message_reader
  new_overflows bs s h g =
      rw (g, new_control_message_reader)
        (ap first_read (read_overflow control_read_buffer_size bs s h))

  -- The control track of a recording that fits the read buffer is read back message by message:
  -- the calls of `Pop` give the messages that were written, in their order, and then each further
  -- call gives nil.
  pub pops-new_control_message_reader :
      (cs : List Control) (k : ℕ)
      → All IsControl cs
      → length (marshal_all cs) ≤ control_read_buffer_size
      → gunzip control ≡ ok (chunk (marshal_all cs) end)
      → pops (length cs + k) (new_control_message_reader gunzip (ok control ∷ c))
        ≡ messages cs ++ nils k
  pops-new_control_message_reader cs k v fits g =
      rw (new_fits (marshal_all cs) fits g) (pops_whole cs k _ refl refl v refl (λ e. e))

  -- A control track whose message `m` lies across the end of the read buffer is cut off: the
  -- calls of `Pop` give the messages `cs` before it, and then each further call gives nil, however
  -- many they are and whatever the stream still holds.
  pub pops_straddle :
      (cs ds : List Control) (m : Control) (s : Stream) (k : ℕ)
      → All IsControl cs
      → IsControl m
      → length (marshal_all cs) < control_read_buffer_size
      → control_read_buffer_size < length (marshal_all cs) + length (marshal_binary m)
      → gunzip control ≡ ok (chunk (marshal_all cs ++ (marshal_binary m ++ marshal_all ds)) s)
      → pops (length cs + k) (new_control_message_reader gunzip (ok control ∷ c))
        ≡ messages cs ++ nils k
  pops_straddle cs ds m s k v vm lo hi g =
      let j = control_read_buffer_size - length (marshal_all cs) - 1 in
      let room : control_read_buffer_size - length (marshal_all cs) ≡ suc j = omega arith in
      let bs = marshal_all cs ++ (marshal_binary m ++ marshal_all ds) in
      let size = length-append (marshal_all cs) (marshal_binary m ++ marshal_all ds) in
      let size' = length-append (marshal_binary m) (marshal_all ds) in
      rw (new_overflows bs s (omega (arith, size, size')) g) (
        pops_cut cs k _ m j refl
          (omega (arith, length-take control_read_buffer_size bs, size, size')) v vm (omega arith)
          (take-append_more control_read_buffer_size (marshal_all cs)
              (marshal_binary m ++ marshal_all ds) (omega arith)
            ∙ ap (λ t. marshal_all cs ++ t)
                (ap (λ n. take n (marshal_binary m ++ marshal_all ds)) room
                  ∙ take-append_less (suc j) (marshal_binary m) (marshal_all ds) (omega arith))))
