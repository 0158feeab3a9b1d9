-- ===== src/Inet/TcpSock/Decodes.antt =====
-- When a function that reads gives back what a function that writes has sent, and ends with the
-- stream if only a part of that arrives.
pub mod Numbers
use mathlib.Core.List.{append_assoc, append-nil}
use hycast.Prelude.{
  ℕ, zero, suc, ◌+◌, ◌-◌, ◌%◌, ◌^◌, ◌≤◌, ◌<◌, ◌≡◌, refl, sym, ap, ◌∙◌, true, false, List, [], ◌∷◌,
  ◌++◌, arith, leb, length, take, drop, replicate, length-append, length-replicate, dec_lt,
}
use hycast.Inet.TcpSock.{
  Out, In, Got, got, eof, throws, Reader, followed_by, ◌>>=◌, returned, pad_len, write,
  align_write_to, network16, network32, write16, write32, read, align_read_to, host, read_number,
  read16, read32,
}

abbrev pub Writer : Type 0
Writer = Out → Out

abbrev pub stream : List ℕ → ℕ → In
stream bytes count = record { incoming = bytes; bytes_read = count }

-- The writer appends these bytes. The reader, with the same count of bytes, reads them and goes on as
-- `next` with what follows them, and with the writer's count; of a proper part it reads nothing but
-- the end.
pub record LeadsAt {A : Type 0} (w : Writer) (r next : Reader A) (o : Out) : Type 0 where
  pub bytes : List ℕ
  pub appends : (w o).sent ≡ o.sent ++ bytes
  pub reads :
      (rest : List ℕ)
      → r (stream (bytes ++ rest) o.bytes_written) ≡ next (stream rest (w o).bytes_written)
  pub cut : (k : ℕ) → k < length bytes → (r (stream (take k bytes) o.bytes_written)).0 ≡ eof

abbrev pub Leads : {A : Type 0} → Writer → Reader A → Reader A → Type 0
Leads w r next = (o : Out) → LeadsAt w r next o

-- The reader gives back `a`.
abbrev pub Decodes : {A : Type 0} → Writer → Reader A → A → Type 0
Decodes w r a = Leads w r (returned a)

pub take-append_left : (k : ℕ) (xs ys : List ℕ) → k ≤ length xs → take k (xs ++ ys) ≡ take k xs
take-append_left zero xs ys h = refl
take-append_left (suc k) [] ys h = absurd (omega arith)
take-append_left (suc k) (x ∷ xs) ys h =
    ap (λ (l : List ℕ). x ∷ l) (take-append_left k xs ys (omega arith))

pub take-append_right :
    (k : ℕ) (xs ys : List ℕ) → length xs ≤ k → take k (xs ++ ys) ≡ xs ++ take (k - length xs) ys
take-append_right k [] ys h = ap (λ (n : ℕ). take n ys) (omega arith)
take-append_right zero (x ∷ xs) ys h = absurd (omega arith)
take-append_right (suc k) (x ∷ xs) ys h =
    let rest = take-append_right k xs ys (omega arith) in
    let same : (suc k - suc (length xs) ≡ k - length xs) = omega arith in
    rw same (ap (λ (l : List ℕ). x ∷ l) rest)

pub drop-append : (xs ys : List ℕ) → drop (length xs) (xs ++ ys) ≡ ys
drop-append [] ys = refl
drop-append (x ∷ xs) ys = drop-append xs ys

pub take-append : (xs ys : List ℕ) → take (length xs) (xs ++ ys) ≡ xs
take-append [] ys = refl
take-append (x ∷ xs) ys = ap (λ (l : List ℕ). x ∷ l) (take-append xs ys)

pub length-take : (k : ℕ) (xs : List ℕ) → k ≤ length xs → length (take k xs) ≡ k
length-take zero xs h = refl
length-take (suc k) [] h = absurd (omega arith)
length-take (suc k) (x ∷ xs) h = ap suc (length-take k xs (omega arith))

-- Reading as many bytes as there are before the rest, and more than there are.
pub read-bytes :
    (bytes rest : List ℕ) (count : ℕ)
    → read (length bytes) (stream (bytes ++ rest) count)
      ≡ (got bytes, stream rest ((count + length bytes) % 2 ^ 32))
unfolding read
read-bytes bytes rest count =
    let enough : (leb (length bytes) (length (bytes ++ rest)) ≡ true) =
      ground (arith, length-append bytes rest) in
    rw (enough, take-append, drop-append) refl

pub read-short :
    (n : ℕ) (bytes : List ℕ) (count : ℕ)
    → length bytes < n
    → read n (stream bytes count) ≡ (eof, stream [] ((count + length bytes) % 2 ^ 32))
unfolding read
read-short n bytes count h =
    let short : (leb n (length bytes) ≡ false) = ground arith in rw short refl

-- Bytes that are written are read as they are.
pub write-Decodes : (bytes : List ℕ) → Decodes (write bytes) (read (length bytes)) bytes
unfolding write
write-Decodes bytes o = record {
  bytes = bytes;
  appends = refl;
  reads = λ rest. read-bytes bytes rest o.bytes_written;
  cut = λ k h.
      ap (λ (p : Got (List ℕ) × In). p.0)
        (read-short (length bytes) (take k bytes) o.bytes_written
          (omega (arith, length-take k bytes)));
}

pub returned-Decodes : {A : Type 0} (a : A) → Decodes (λ o. o) (returned a) a
returned-Decodes a o = record {
  bytes = [];
  appends = sym (append-nil o.sent);
  reads = λ rest. refl;
  cut = λ k h. absurd (omega arith);
}

pub followed_by-eof :
    {A B : Type 0} (k : A → Reader B) (p : Got A × In) → p.0 ≡ eof → (followed_by k p).0 ≡ eof
followed_by-eof k (got a, i) e = absurd (cc)
followed_by-eof k (eof, i) e = refl
followed_by-eof k (throws x, i) e = absurd (cc)

-- One after the other.
pub then-Leads :
    {A B : Type 0} (w v : Writer) (r : Reader A) (k : A → Reader B) (a : A) (next : Reader B)
    → Decodes w r a
    → Leads v (k a) next
    → Leads (λ o. v (w o)) (r >>= k) next
then-Leads {A = A} w v r k a next d e o =
    let first = d o in
    let second = e (w o) in
    let xs = first.bytes in
    let ys = second.bytes in
    let count = o.bytes_written in
    record {
      bytes = xs ++ ys;
      appends =
          second.appends ∙ ap (λ (l : List ℕ). l ++ ys) first.appends ∙ append_assoc o.sent xs ys;
      reads = λ rest.
          ap (λ (l : List ℕ). followed_by k (r (stream l count))) (append_assoc xs ys rest)
          ∙ ap (followed_by k) (first.reads (ys ++ rest))
          ∙ second.reads rest;
      cut = λ n h. elim (dec_lt n (length xs)) [
        | yes early ↦ followed_by-eof k (r (stream (take n (xs ++ ys)) count)) (
            ap (λ (l : List ℕ). (r (stream l count)).0) (take-append_left n xs ys (omega arith))
            ∙ first.cut n early)
        | no late ↦
            ap (λ (l : List ℕ). (followed_by k (r (stream l count))).0)
              (take-append_right n xs ys (omega arith))
            ∙ ap (λ (p : Got A × In). (followed_by k p).0) (first.reads (take (n - length xs) ys))
            ∙ second.cut (n - length xs) (omega (arith, length-append xs ys))
      ];
    }
