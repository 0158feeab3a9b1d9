-- ===== src/Inet/TcpSock/Decodes/Numbers.antt =====
-- Numbers on the stream of main/inet/Socket.cpp, behind the bytes that bring them to a multiple of their
-- size.
use mathlib.Core.List.{append_assoc}
use hycast.Prelude.{
  ℕ, ◌+◌, ◌-◌, ◌%◌, ◌^◌, ◌<◌, ◌≡◌, sym, ap, ◌∙◌, List, [], ◌++◌, arith, length, take, replicate,
  length-append, length-replicate, dec_lt,
}
use hycast.Inet.TcpSock.{
  Out, In, Got, got, eof, Reader, followed_by, returned, pad_len, write, align_write_to, network16,
  network32, write16, write32, read, align_read_to, host, read_number, read16, read32,
}
use hycast.Inet.TcpSock.Decodes.{
  stream, Decodes, take-append_right, length-take, read-bytes, read-short, followed_by-eof,
}

abbrev zeros : ℕ → List ℕ
zeros n = replicate n 0

length-zeros : (n : ℕ) → length (zeros n) ≡ n
length-zeros n = length-replicate n (let z : ℕ = 0 in z)

-- The bytes before a number are skipped.
align_read_to-zeros :
    (n count : ℕ) (bytes : List ℕ)
    → let pad = pad_len count n in
      align_read_to n (stream (zeros pad ++ bytes) count) ≡ stream bytes ((count + pad) % 2 ^ 32)
unfolding align_read_to
align_read_to-zeros n count bytes =
    let pad = pad_len count n in
    let skipped = read-bytes (zeros pad) bytes count in
    ap (λ (p : Got (List ℕ) × In). p.1) (rw (length-zeros pad) at skipped)

align_read_to-short :
    (n count : ℕ) (bytes : List ℕ)
    → length bytes < pad_len count n
    → (align_read_to n (stream bytes count)).incoming ≡ []
unfolding align_read_to
align_read_to-short n count bytes h =
    ap (λ (p : Got (List ℕ) × In). p.1.incoming) (read-short (pad_len count n) bytes count h)

-- What follows the alignment.
abbrev number_at : ℕ → Reader ℕ
number_at n i = followed_by (λ bytes. returned (host bytes 0)) (read n i)

number_at-reads :
    (bytes rest : List ℕ) (count : ℕ)
    → number_at (length bytes) (stream (bytes ++ rest) count)
      ≡ (got (host bytes 0), stream rest ((count + length bytes) % 2 ^ 32))
number_at-reads bytes rest count =
    ap (followed_by (λ bs. returned (host bs 0))) (read-bytes bytes rest count)

number_at-cut : (n : ℕ) (i : In) → length i.incoming < n → (number_at n i).0 ≡ eof
number_at-cut n i h =
    followed_by-eof (λ bs. returned (host bs 0)) (read n i)
      (ap (λ (p : Got (List ℕ) × In). p.0) (read-short n i.incoming i.bytes_read h))

-- A number in network order, behind the bytes that bring it to a multiple of its size.
number-Decodes :
    (bytes : List ℕ)
    → 0 < length bytes
    → Decodes
        (λ o. write bytes (align_write_to (length bytes) o))
        (read_number (length bytes))
        (host bytes 0)
unfolding write align_write_to read_number
number-Decodes bytes pos o =
    let n = length bytes in
    let count = o.bytes_written in
    let pad = pad_len count n in
    let at : ℕ = (count + pad) % 2 ^ 32 in
    let size : (length (zeros pad) ≡ pad) = length-zeros pad in
    record {
      bytes = zeros pad ++ bytes;
      appends = append_assoc o.sent (zeros pad) bytes;
      reads = λ rest.
          ap (λ (l : List ℕ). number_at n (align_read_to n (stream l count)))
            (append_assoc (zeros pad) bytes rest)
          ∙ ap (number_at n) (align_read_to-zeros n count (bytes ++ rest))
          ∙ number_at-reads bytes rest at
          ∙ ap (λ (c : ℕ). (got (host bytes 0), stream rest (((count + c) % 2 ^ 32 + n) % 2 ^ 32)))
              (sym size);
      cut = λ k h. elim (dec_lt k pad) [
        | yes early ↦
            let part = take k (zeros pad ++ bytes) in
            let short : (length part < pad) = omega (arith, length-take k (zeros pad ++ bytes)) in
            let nothing = align_read_to-short n count part short in
            number_at-cut n (align_read_to n (stream part count))
              (omega (arith, ap (λ (l : List ℕ). length l) nothing))
        | no late ↦
            let whole = length-append (zeros pad) bytes in
            let left = k - length (zeros pad) in
            ap (λ (l : List ℕ). (number_at n (align_read_to n (stream l count))).0)
              (take-append_right k (zeros pad) bytes (omega arith))
            ∙ ap (λ (i : In). (number_at n i).0) (align_read_to-zeros n count (take left bytes))
            ∙ number_at-cut n (stream (take left bytes) at)
                (omega (arith, length-take left bytes (omega arith)))
      ];
    }

pub write16-Decodes : (value : ℕ) → value < 2 ^ 16 → Decodes (write16 value) read16 value
unfolding write16
write16-Decodes value h =
    let e : (host (network16 value) 0 ≡ value) = omega arith in
    rw e at (number-Decodes (network16 value) (omega arith))

pub write32-Decodes : (value : ℕ) → value < 2 ^ 32 → Decodes (write32 value) read32 value
unfolding write32
write32-Decodes value h =
    let e : (host (network32 value) 0 ≡ value) = omega arith in
    rw e at (number-Decodes (network32 value) (omega arith))

-- No number is read at the end of the stream.
nothing_left : (n count : ℕ) → (align_read_to n (stream [] count)).incoming ≡ []
nothing_left n count = elim (dec_lt 0 (pad_len count n)) [
  | yes pads ↦ align_read_to-short n count [] pads
  | no aligned ↦
      let same : (pad_len count n ≡ 0) = omega arith in
      let none : (zeros (pad_len count n) ≡ []) = ap zeros same in
      ap (λ (l : List ℕ). (align_read_to n (stream (l ++ []) count)).incoming) (sym none)
      ∙ ap (λ (i : In). i.incoming) (align_read_to-zeros n count [])
]

pub read_number-ends : (n count : ℕ) → 0 < n → (read_number n (stream [] count)).0 ≡ eof
unfolding read_number
read_number-ends n count pos =
    number_at-cut n (align_read_to n (stream [] count))
      (omega (arith, ap (λ (l : List ℕ). length l) (nothing_left n count)))

-- A number that needs no alignment.
pub read_number-aligned :
    (bytes rest : List ℕ) (count : ℕ)
    → pad_len count (length bytes) ≡ 0
    → read_number (length bytes) (stream (bytes ++ rest) count)
      ≡ (got (host bytes 0), stream rest (((count + 0) % 2 ^ 32 + length bytes) % 2 ^ 32))
unfolding read_number
read_number-aligned bytes rest count e =
    let n = length bytes in
    let skipped = align_read_to-zeros n count (bytes ++ rest) in
    ap (number_at n) (rw e at skipped) ∙ number_at-reads bytes rest ((count + 0) % 2 ^ 32)

-- The count of bytes is a multiple of four behind a number of 32 bits.
pub write32-aligned :
    (value : ℕ) (o : Out) → o.bytes_written < 2 ^ 32 → (write32 value o).bytes_written % 4 ≡ 0
unfolding write32 align_write_to write pad_len
write32-aligned value o h =
    omega (arith, length-zeros ((4 + 2 ^ 64 - o.bytes_written) % 2 ^ 64 % 4))

pub pad_len-aligned : (count : ℕ) → count < 2 ^ 32 → count % 4 ≡ 0 → pad_len count 2 ≡ 0
unfolding pad_len
pad_len-aligned count h e = omega arith

pub write32-below : (value : ℕ) (o : Out) → (write32 value o).bytes_written < 2 ^ 32
unfolding write32 write
write32-below value o = omega arith
