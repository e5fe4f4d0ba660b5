-- ===== src/S3fs/Temporary/Streaming.antt =====
-- s3fs/tempfs.go: reads and writes of one temporary file, in any order.
use kefka.Common.{
  ℕ, ◌+◌, ◌^◌, ◌≤◌, ◌<◌, ◌≡◌, refl, sym, ap, ◌∙◌, inl, inr, false, [], ◌++◌, append-nil,
  append_assoc, arith, leb, Bool-cases, length, take, drop, length-append, Bytes, take-drop,
  drop-append,
}
use kefka.Common.Int.{add_int64-fits, pos}
use mathlib.Core.Path.{subst}
use kefka.S3fs.Temporary.{TempWriteFile, TempReadFile, write, read_at, read}

-- The buffer, the reader and all the bytes that it was given so far.
pub record Stream : Type 0 where
  pub contents : Bytes
  pub reader : TempReadFile
  pub received : Bytes

-- A write by some handle, open or closed, or a read into a slice of some size.
pub data Step : Stream → Stream → Type 0 where
  writing :
      {s : Stream} (f : TempWriteFile) (p : Bytes)
      → Step s (record {
        contents = (write f s.contents p).data_after;
        reader = s.reader;
        received = s.received;
      })
  reading :
      {s : Stream} (n : ℕ)
      → Step s (record {
        contents = s.contents;
        reader = (read s.reader s.contents n).0;
        received = s.received ++ (read s.reader s.contents n).1;
      })

-- What was received is what stands before the position of the reader.
pub record InOrder (s : Stream) : Type 0 where
  pub at : s.reader.position ≡ pos (length s.received)
  pub rest : Bytes
  pub whole : s.contents ≡ s.received ++ rest

-- Steps in any order.
pub data Steps (s : Stream) : Stream → Type 0 where
  start : Steps s s
  onward : {t u : Stream} → Steps s t → Step t u → Steps s u

-- The stream when a reader opens an empty file.
abbrev pub opened : Bytes → Stream
opened name = record {
  contents = [];
  reader = record { name = name; position = pos 0; closed = false };
  received = [];
}

length-write :
    (f : TempWriteFile) (contents p : Bytes)
    → length contents ≤ length (write f contents p).data_after
unfolding write
length-write f contents p = elim (Bool-cases f.closed) [
  | inl e ↦ rw e (omega arith)
  | inr e ↦ rw e (omega (arith, length-append contents p))
]

Step-grows : {s t : Stream} → Step s t → length s.contents ≤ length t.contents
Step-grows {s} (writing f p) = length-write f s.contents p
Step-grows (reading n) = omega arith

read_at-InOrder :
    (n : ℕ) (received rest : Bytes)
    → (t : Bytes) × (received ++ rest
        ≡ (received ++ (read_at (received ++ rest) n (pos (length received))).0) ++ t)
unfolding read_at
read_at-InOrder n received rest =
    elim (Bool-cases (leb (length (received ++ rest)) (length received))) [
      | inl e ↦ (rest, rw (e, append-nil received) refl)
      | inr e ↦ (
        drop n rest,
        rw
            (
              e,
              drop-append received rest,
              append_assoc received (take n rest) (drop n rest),
              take-drop n rest,
            )
            refl,
      )
    ]

read-InOrder :
    (f : TempReadFile) (n : ℕ) (received rest : Bytes)
    → f.position ≡ pos (length received)
    → length (received ++ rest) < 2 ^ 63
    → ((read f (received ++ rest) n).0.position
        ≡ pos (length (received ++ (read f (received ++ rest) n).1)))
      × ((t : Bytes) × (received ++ rest ≡ (received ++ (read f (received ++ rest) n).1) ++ t))
unfolding read
read-InOrder f n received rest h k = elim (Bool-cases f.closed) [
  | inl e ↦ rw (e, append-nil received) (h, (rest, refl))
  | inr e ↦
      let copied = (read_at (received ++ rest) n (pos (length received))).0 in
      let (t, whole) = read_at-InOrder n received rest in
      let lengths : length (received ++ rest) ≡ length ((received ++ copied) ++ t) =
        ap length whole in
      let total : length received + length copied < 2 ^ 63 =
        omega (
          arith,
          k,
          lengths,
          length-append (received ++ copied) t,
          length-append received copied,
        ) in
      rw (e, h)
        (
          add_int64-fits (length received) (length copied) total
              ∙ ap pos (sym (length-append received copied)),
          (t, whole),
        )
]

write-InOrder :
    (f : TempWriteFile) (received rest p : Bytes)
    → (t : Bytes) × ((write f (received ++ rest) p).data_after ≡ received ++ t)
unfolding write
write-InOrder f received rest p = elim (Bool-cases f.closed) [
  | inl e ↦ (rest, rw e refl)
  | inr e ↦ (rest ++ p, rw e (append_assoc received rest p))
]

Step-InOrder : {s t : Stream} → Step s t → length s.contents < 2 ^ 63 → InOrder s → InOrder t
Step-InOrder {s} (writing f p) k h =
    let (t, e) = write-InOrder f s.received h.rest p in
    record { at = h.at; rest = t; whole = rw h.whole e }
Step-InOrder {s} (reading n) k h =
    let bound : length (s.received ++ h.rest) < 2 ^ 63 = subst (λ x. length x < 2 ^ 63) h.whole k in
    let (place, after) = read-InOrder s.reader n s.received h.rest h.at bound in
    let (t, e) = after in record { at = rw h.whole place; rest = t; whole = rw h.whole e }

bounded_before : {a b n : ℕ} → a ≤ b → b < n → a < n
bounded_before h k = omega arith

-- However writes and reads alternate on a new temporary file of less than 2 ^ 63 bytes, the reader
-- has received the first bytes that were written, in order and each once, up to its position.
pub Steps-InOrder :
    (name : Bytes) {s : Stream} → Steps (opened name) s → length s.contents < 2 ^ 63 → InOrder s
Steps-InOrder name start k = record { at = refl; rest = []; whole = refl }
Steps-InOrder name (onward r e) k =
    let before = bounded_before (Step-grows e) k in
    Step-InOrder e before (Steps-InOrder name r before)
