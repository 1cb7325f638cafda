-- ===== src/Recording/ControlReader/Size.antt =====
-- store/mongo/control_reader.go: every message that `Pop` gives uses up bytes, so a loop over `Pop`
-- ends.
use deviceconnect.Prelude.{◌⊎◌}
use deviceconnect.Recording.Stream.{is_failure}
use deviceconnect.Prelude.{Bool-cases, inl, inr, ltb}
use deviceconnect.Prelude.{
  ℕ, ◌+◌, ◌-◌, ◌≤◌, ◌<◌, ◌≡◌, List, ◌++◌, length, drop, length-append, length-take, length-drop,
  Option, none, some, arith,
}
use deviceconnect.Errors.{Error, Result, ok, err, panic}
use deviceconnect.Control.{Control, unmarshal_binary, zero_control}
use deviceconnect.Recording.Stream.{Stream, end, broken, chunk, last, read, bytes}
use deviceconnect.Recording.ControlReader.{
  ControlMessageReader, pop, decode, take_message, refilled, control_read_buffer_size,
}

-- The bytes that the reader has not turned into messages.
abbrev pub size : ControlMessageReader → ℕ
size r = length r.output - r.current_offset + length (bytes r.gzip_reader)

read-size :
    (n : ℕ) (s : Stream)
    → let (bs, _, s') = read n s in length bs + length (bytes s') ≤ length (bytes s)
read-size n end = omega arith
read-size n (broken e) = omega arith
read-size n (chunk bs s) = ground (
  arith,
  length-append bs (bytes s),
  length-append (drop n bs) (bytes s),
  length-take n bs,
  length-drop n bs,
)
read-size n (last bs) = ground (arith, length-take n bs, length-drop n bs)

take_message-size :
    (r : ControlMessageReader) (offset : ℕ) (x : Result Control) (c : Control)
    → r.current_offset < offset
    → offset ≤ length r.output
    → (take_message r offset x).0 ≡ ok (some c)
    → size (take_message r offset x).1 < size r
take_message-size r offset (ok m) c lo hi h = ground arith
take_message-size r offset (err e) c lo hi h = cc
take_message-size r offset panic c lo hi h = cc

decode-size :
    (r : ControlMessageReader) (c : Control)
    → (decode r).0 ≡ ok (some c)
    → size (decode r).1 < size r
decode-size r c h =
    let x = unmarshal_binary zero_control (drop r.current_offset r.output) in
    ground (
      arith,
      take_message-size r (r.current_offset + 7) x c,
      take_message-size r (r.current_offset + 9) x c,
    )

refilled-size :
    (r : ControlMessageReader) (bs : List ℕ) (e : Option Error) (s : Stream) (c : Control)
    → length bs + length (bytes s) ≤ length (bytes r.gzip_reader)
    → (refilled r (bs, e, s)).0 ≡ ok (some c)
    → size (refilled r (bs, e, s)).1 < size r
refilled-size r bs e s c le h = elim (Bool-cases (is_failure e)) [
  | inl failed ↦ absurd (not_popped (rw failed at h))
  | inr fine ↦
      let r' = record r { output = r.output ++ bs; gzip_reader = s } in
      let lt : size (decode r').1 < size r' = decode-size r' c (rw fine at h) in
      rw fine (omega (arith, lt, length-append r.output bs))
]
  where
    not_popped : ◌≡◌ {A = Result (Option Control)} (ok none) (ok (some c)) → ⊥
    not_popped q = cc

pop_cases :
    (r : ControlMessageReader)
    → (pop r ≡ refilled r (read (control_read_buffer_size - length r.output) r.gzip_reader))
      ⊎ ((pop r ≡ decode r) ⊎ (pop r ≡ (ok none, r)))
unfolding pop
pop_cases r = elim (Bool-cases r.live) [
  | inl l ↦ elim (Bool-cases (ltb (length r.output) 3)) [
    | inl few ↦ inl (simp (l, few))
    | inr many ↦ inr (inl (simp (l, many)))
  ]
  | inr noop ↦ inr (inr (simp noop))
]

pub pop-size :
    (r : ControlMessageReader) (c : Control) → (pop r).0 ≡ ok (some c) → size (pop r).1 < size r
pop-size r c h = elim (pop_cases r) [
  | inl e ↦
      let n = control_read_buffer_size - length r.output in
      let (bs, x, s) = read n r.gzip_reader in
      rw e (refilled-size r bs x s c (read-size n r.gzip_reader) (rw e at h))
  | inr (inl e) ↦ rw e (decode-size r c (rw e at h))
  | inr (inr e) ↦ absurd (not_popped (rw e at h))
]
  where
    not_popped : ◌≡◌ {A = Result (Option Control)} (ok none) (ok (some c)) → ⊥
    not_popped q = cc
