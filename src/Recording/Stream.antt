-- ===== src/Recording/Stream.antt =====
-- What the readers of store/mongo use of `compress/gzip` and of a database cursor. A gzip reader is
-- the bytes that it still has to hand out, in the pieces in which the decompressor produces them; a
-- cursor is the documents that are left, each with what decoding it gives.
use deviceconnect.Prelude.{
  ℕ, List, [], ◌++◌, length, take, drop, Option, none, some, leb, if◌then◌else◌, Bool, true, false,
}
use deviceconnect.Errors.{Error, Result, eof}

pub data Stream : Type 0 where
  -- `io.EOF` from now on
  end : Stream
  -- the error from now on: a corrupt stream
  broken : Error → Stream
  chunk : List ℕ → Stream → Stream
  -- The last bytes come together with `io.EOF`, as the contract of `io.Reader` allows.
  last : List ℕ → Stream

-- `Read(p)` with `len(p) = n`: the bytes, the error, and the reader afterwards.
abbrev pub read : ℕ → Stream → List ℕ × Option Error × Stream
read n end = ([], some eof, end)
read n (broken e) = ([], some e, broken e)
read n (chunk bs s) =
    if leb (length bs) n then (bs, none, s) else (take n bs, none, chunk (drop n bs) s)
read n (last bs) =
    if leb (length bs) n then (bs, some eof, end) else (take n bs, none, last (drop n bs))

-- `e != nil && e != io.EOF`
abbrev pub is_failure : Option Error → Bool
is_failure none = false
is_failure (some eof) = false
is_failure (some _) = true

abbrev pub is_eof : Option Error → Bool
is_eof (some eof) = true
is_eof _ = false

-- `c.Next` and `c.Decode` of the documents of one session, sorted by creation.
abbrev pub Cursor : Type 0
Cursor = List (Result (List ℕ))

-- All bytes that a stream hands out before its end.
abbrev pub bytes : Stream → List ℕ
bytes end = []
bytes (broken e) = []
bytes (chunk bs s) = bs ++ bytes s
bytes (last bs) = bs
