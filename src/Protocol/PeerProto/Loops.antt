-- ===== src/Protocol/PeerProto/Loops.antt =====
-- The receiving loops of main/protocol/PeerProto.cpp over a stream of messages, whole or cut.
use hycast.Prelude.{
  ℕ, ◌+◌, ◌≤◌, zero, suc, ◌-◌, ◌<◌, ◌⊎◌, inl, inr, ◌≡◌, refl, sym, ap, ◌∙◌, List, [], ◌∷◌, ◌++◌,
  arith, length, take, All, Error, dec_lt, length-append,
}
use mathlib.Core.List.{append_assoc, append-nil}
use hycast.Inet.TcpSock.{Out, In, Got, got, eof, throws, Reader}
use hycast.Inet.TcpSock.Decodes.{Writer, Decodes, stream, take-append_left, take-append_right}
use hycast.Protocol.PeerProto.{End, halted, failed, ends_or, receive}

module _ {M : Type 0} (send : M → Writer) where
  -- The messages are sent one after the other.
  abbrev pub send_all : List M → Writer
  send_all [] o = o
  send_all (m ∷ ms) o = send_all ms (send m o)

  abbrev pub sent_bytes : List M → ℕ → List ℕ
  sent_bytes ms count = (send_all ms (record { sent = []; bytes_written = count })).sent

  -- The first `n` messages are sent whole with `k` bytes more, and no message beyond them is.
  abbrev pub Fits : List M → Out → (n k : ℕ) → Type 0
  Fits ms o n k =
      (length (send_all (take n ms) o).sent ≤ length o.sent + k)
      × ((length ms ≤ n) ⊎ (length o.sent + k < length (send_all (take (suc n) ms) o).sent))

module _ {M : Type 0} (send : M → Writer) (recv : Reader M) where
  -- A message that is read whole.
  pub record Whole (m : M) (o : Out) : Type 0 where
    pub bytes : List ℕ
    pub appends : (send m o).sent ≡ o.sent ++ bytes
    pub reads :
        (rest : List ℕ)
        → recv (stream (bytes ++ rest) o.bytes_written)
          ≡ (got m, stream rest (send m o).bytes_written)

  -- The bytes of all messages are appended. The loop hands all over; of a proper part it hands over
  -- the first of them and halts.
  record Arrive (ms : List M) (o : Out) : Type 0 where
    bytes : List ℕ
    appends : (send_all send ms o).sent ≡ o.sent ++ bytes
    whole :
        (fuel : ℕ)
        → length ms < fuel
        → receive recv fuel (stream bytes o.bytes_written) ≡ (ms, halted)

  record ArrivePart (ms : List M) (o : Out) : Type 0 where
    bytes : List ℕ
    appends : (send_all send ms o).sent ≡ o.sent ++ bytes
    part :
        (fuel k : ℕ)
        → length ms < fuel
        → (n : ℕ) × Fits send ms o n k
          × (receive recv fuel (stream (take k bytes) o.bytes_written) ≡ (take n ms, halted))

  module _ (ends : (count : ℕ) → (recv (stream [] count)).0 ≡ eof) where
    ends_or-eof :
        (rest : In → List M × End) (p : Got M × In) → p.0 ≡ eof → ends_or rest p ≡ ([], halted)
    ends_or-eof rest (got m, i) e = absurd (cc)
    ends_or-eof rest (eof, i) e = refl
    ends_or-eof rest (throws x, i) e = absurd (cc)

    pub stops :
        (fuel : ℕ) (i : In) → 0 < fuel → (recv i).0 ≡ eof → receive recv fuel i ≡ ([], halted)
    unfolding receive
    stops zero i h e = absurd (omega arith)
    stops (suc fuel) i h e = ends_or-eof (receive recv fuel) (recv i) e

    take-nothing : (k : ℕ) → take {A = ℕ} k [] ≡ []
    take-nothing zero = refl
    take-nothing (suc k) = refl

    -- One message more.
    pub goes_on :
        (m : M) (ms : List M) (end : End) (fuel : ℕ) (i j : In)
        → 0 < fuel
        → recv i ≡ (got m, j)
        → receive recv (fuel - 1) j ≡ (ms, end)
        → receive recv fuel i ≡ (m ∷ ms, end)
    unfolding receive
    goes_on m ms end zero i j h e rest = absurd (omega arith)
    goes_on m ms end (suc fuel) i j h e rest =
        let less : (suc fuel - 1 ≡ fuel) = omega arith in
        ap (ends_or (receive recv fuel)) e
        ∙ ap (λ (p : List M × End). (m ∷ p.0, p.1)) (rw less at rest)

    ends_or-throws :
        (rest : In → List M × End) (e : Error) (p : Got M × In)
        → p.0 ≡ throws e
        → ends_or rest p ≡ ([], failed e)
    ends_or-throws rest e (got m, i) h = absurd (cc)
    ends_or-throws rest e (eof, i) h = absurd (cc)
    ends_or-throws rest e (throws x, i) h = cc

    pub fails :
        (e : Error) (fuel : ℕ) (i : In)
        → 0 < fuel
        → (recv i).0 ≡ throws e
        → receive recv fuel i ≡ ([], failed e)
    unfolding receive
    fails e zero i h t = absurd (omega arith)
    fails e (suc fuel) i h t = ends_or-throws (receive recv fuel) e (recv i) t

    arrive : (ms : List M) (o : Out) → All (λ m. (p : Out) → Whole m p) ms → Arrive ms o
    arrive [] o d = record {
      bytes = [];
      appends = sym (append-nil o.sent);
      whole = λ fuel h. stops fuel (stream [] o.bytes_written) (omega arith) (ends o.bytes_written);
    }
    arrive (m ∷ ms) o (d, ds) =
        let first = d o in
        let rest = arrive ms (send m o) ds in
        let xs = first.bytes in
        let ys = rest.bytes in
        record {
          bytes = xs ++ ys;
          appends =
              rest.appends ∙ ap (λ (l : List ℕ). l ++ ys) first.appends ∙ append_assoc o.sent xs ys;
          whole = λ fuel h.
              goes_on m ms halted fuel (stream (xs ++ ys) o.bytes_written)
                (stream ys (send m o).bytes_written) (omega arith) (first.reads ys)
                (rest.whole (fuel - 1) (omega arith));
        }

    arrive_part : (ms : List M) (o : Out) → All (λ m. Decodes (send m) recv m) ms → ArrivePart ms o
    arrive_part [] o d = record {
      bytes = [];
      appends = sym (append-nil o.sent);
      part = λ fuel k h.
          let nothing = take-nothing k in
          (
            0,
            (omega arith, inl (omega arith)),
            stops fuel (stream (take k []) o.bytes_written) (omega arith) (
                ap (λ (l : List ℕ). (recv (stream l o.bytes_written)).0) nothing
                ∙ ends o.bytes_written),
          );
    }
    arrive_part (m ∷ ms) o (d, ds) =
        let first = d o in
        let rest = arrive_part ms (send m o) ds in
        let xs = first.bytes in
        let ys = rest.bytes in
        let count = o.bytes_written in
        record {
          bytes = xs ++ ys;
          appends =
              rest.appends ∙ ap (λ (l : List ℕ). l ++ ys) first.appends ∙ append_assoc o.sent xs ys;
          part = λ fuel k h.
              let grown : (length (send m o).sent ≡ length o.sent + length xs) =
                ap (λ (l : List ℕ). length l) first.appends ∙ length-append o.sent xs in
              elim (dec_lt k (length xs)) [
                | yes early ↦
                    let cut = first.cut k early in
                    let same = take-append_left k xs ys (omega arith) in
                    (
                      0,
                      (omega arith, inr (omega (arith, grown, early))),
                      stops fuel (stream (take k (xs ++ ys)) count) (omega arith)
                          (ap (λ (l : List ℕ). (recv (stream l count)).0) same ∙ cut),
                    )
                | no late ↦
                    let left = k - length xs in
                    let same = take-append_right k xs ys (omega arith) in
                    let (n, (whole, next), found) = rest.part (fuel - 1) left (omega arith) in
                    (
                      suc n,
                      (
                        omega (arith, whole, grown),
                        elim next [
                          | inl all ↦ inl (omega arith)
                          | inr more ↦ inr (omega (arith, more, grown))
                        ],
                      ),
                      goes_on m (take n ms) halted fuel (stream (take k (xs ++ ys)) count)
                          (stream (take left ys) (send m o).bytes_written) (omega arith)
                          (ap (λ (l : List ℕ). recv (stream l count)) same
                            ∙ first.reads (take left ys))
                          found,
                    )
              ];
        }

    pub arrives :
        (ms : List M) (fuel count : ℕ)
        → All (λ m. (p : Out) → Whole m p) ms
        → length ms < fuel
        → receive recv fuel (stream (sent_bytes send ms count) count) ≡ (ms, halted)
    arrives ms fuel count ds h =
        let all = arrive ms (record { sent = []; bytes_written = count }) ds in
        ap (λ (l : List ℕ). receive recv fuel (stream l count)) all.appends ∙ all.whole fuel h

    pub arrives-part :
        (ms : List M) (fuel count k : ℕ)
        → All (λ m. Decodes (send m) recv m) ms
        → length ms < fuel
        → (n : ℕ) × Fits send ms (record { sent = []; bytes_written = count }) n k
          × (receive recv fuel (stream (take k (sent_bytes send ms count)) count)
              ≡ (take n ms, halted))
    arrives-part ms fuel count k ds h =
        let all = arrive_part ms (record { sent = []; bytes_written = count }) ds in
        let (n, fits, found) = all.part fuel k h in
        (
          n,
          fits,
          ap (λ (l : List ℕ). receive recv fuel (stream (take k l) count)) all.appends ∙ found,
        )

-- A message that is decoded is read whole.
pub Decodes-Whole :
    {M : Type 0} (send : M → Writer) (recv : Reader M) (m : M)
    → Decodes (send m) recv m
    → (o : Out) → Whole send recv m o
Decodes-Whole send recv m d o = record {
  bytes = (d o).bytes;
  appends = (d o).appends;
  reads = (d o).reads;
}
