-- ===== src/Protocol/PeerProto/Halts.antt =====
-- The receiving loops of main/protocol/PeerProto.cpp end on every stream of bytes.
use hycast.Prelude.{
  ℕ, zero, suc, ◌≤◌, ◌<◌, ◌≢◌, Bool, true, false, List, arith, length, leb, ◌==◌, if◌then◌else◌,
  length-drop, Bool-cases, inl, inr,
}
use hycast.Inet.TcpSock.{
  In, Got, got, eof, throws, Reader, followed_by, ◌>>=◌, returned, pad_len, read, align_read_to,
  read_number, read16, read32, host,
}
use hycast.Protocol.PeerProto.{
  SegInfo, get_data, valid_index, recv_prod_notice, recv_seg_notice, recv_notice, recv_prod_req,
  recv_seg_req, recv_request, recv_common, recv_prod_info, recv_data_seg, recv_chunk, End,
  out_of_fuel, ends_or, receive,
}

-- The stream does not grow, and gets shorter if something is read.
abbrev NoLonger : {A : Type 0} → Reader A → Type 0
NoLonger r = (i : In) → length (r i).1.incoming ≤ length i.incoming

abbrev IsShorter : {A : Type 0} → ℕ → Got A × In → Type 0
IsShorter n (got a, i) = length i.incoming < n
IsShorter n _ = Unit

abbrev Consumes : {A : Type 0} → Reader A → Type 0
Consumes r = (i : In) → IsShorter (length i.incoming) (r i)

module _ {A B : Type 0} (r : Reader A) (k : A → Reader B) (n : (a : A) → NoLonger (k a)) where
  followed_by-le :
      (m : ℕ) (p : Got A × In) → length p.1.incoming ≤ m → length (followed_by k p).1.incoming ≤ m
  followed_by-le m (got a, i) h = omega (arith, n a i)
  followed_by-le m (eof, i) h = h
  followed_by-le m (throws e, i) h = h

  then-NoLonger : NoLonger r → NoLonger (r >>= k)
  then-NoLonger d i = followed_by-le (length i.incoming) (r i) (d i)

  followed-IsShorter : (m : ℕ) (p : Got B × In) → length p.1.incoming < m → IsShorter m p
  followed-IsShorter m (got b, i) h = h
  followed-IsShorter m (eof, i) h = tt
  followed-IsShorter m (throws e, i) h = tt

  followed_by-lt : (m : ℕ) (p : Got A × In) → IsShorter m p → IsShorter m (followed_by k p)
  followed_by-lt m (got a, i) h = followed-IsShorter m (k a i) (omega (arith, n a i))
  followed_by-lt m (eof, i) h = tt
  followed_by-lt m (throws e, i) h = tt

  then-Consumes : Consumes r → Consumes (r >>= k)
  then-Consumes d i = followed_by-lt (length i.incoming) (r i) (d i)

read-NoLonger : (n : ℕ) → NoLonger (read n)
unfolding read
read-NoLonger n i = elim (Bool-cases (leb n (length i.incoming))) [
  | inl e ↦ rw e (omega (arith, length-drop n i.incoming))
  | inr e ↦ rw e (omega arith)
]

-- Any bytes that are read are taken from the stream.
read-Consumes : (n : ℕ) → 0 < n → (i : In) → IsShorter (length i.incoming) (read n i)
unfolding read
read-Consumes n pos i = elim (Bool-cases (leb n (length i.incoming))) [
  | inl e ↦ rw e (ground (arith, length-drop n i.incoming, e))
  | inr e ↦ rw e tt
]

weaken-IsShorter : {A : Type 0} (m n : ℕ) (p : Got A × In) → m ≤ n → IsShorter m p → IsShorter n p
weaken-IsShorter m n (got a, i) h s = omega arith
weaken-IsShorter m n (eof, i) h s = tt
weaken-IsShorter m n (throws e, i) h s = tt

number-Consumes : (n : ℕ) → 0 < n → Consumes (read_number n)
unfolding read_number align_read_to
number-Consumes n pos i =
    let j = align_read_to n i in
    let aligned = read-NoLonger (pad_len i.bytes_read n) i in
    followed_by-lt (read n) (λ bytes. returned (host bytes 0)) (λ a k. omega arith)
      (length i.incoming) (read n j)
      (weaken-IsShorter (length j.incoming) (length i.incoming) (read n j) aligned
        (read-Consumes n pos j))

number-NoLonger : (n : ℕ) → NoLonger (read_number n)
unfolding read_number align_read_to
number-NoLonger n i =
    let j = align_read_to n i in
    let aligned = read-NoLonger (pad_len i.bytes_read n) i in
    followed_by-le (read n) (λ bytes. returned (host bytes 0)) (λ a k. omega arith)
      (length i.incoming) (read n j) (omega (arith, read-NoLonger n j))

returned-NoLonger : {A : Type 0} (a : A) → NoLonger (returned a)
returned-NoLonger a i = omega arith

if-NoLonger :
    {A : Type 0} (b : Bool) (r s : Reader A)
    → NoLonger r
    → NoLonger s
    → NoLonger (if b then r else s)
if-NoLonger true r s x y = x
if-NoLonger false r s x y = y

index-NoLonger :
    {A : Type 0} (index : ℕ) (r : Reader A) → NoLonger r → NoLonger (valid_index index r)
index-NoLonger index r n = if-NoLonger (index == 0) (λ i. (throws _, i)) r (λ i. omega arith) n

index-read : {A : Type 0} (f : ℕ → A) → NoLonger (read32 >>= λ i. valid_index i (returned (f i)))
index-read f =
    then-NoLonger read32 _ (λ i. index-NoLonger i (returned (f i)) (returned-NoLonger (f i)))
      (number-NoLonger 4)

notice-Consumes : Consumes recv_notice
unfolding recv_notice recv_prod_notice recv_seg_notice
notice-Consumes =
    then-Consumes read16 _
      (λ id.
        if-NoLonger (id == 7) _ _ (λ i. omega arith)
          (if-NoLonger (id == 8) _ _ (λ i. omega arith)
            (if-NoLonger (id == 1) _ _ (index-read _) (
              if-NoLonger (id == 2) _ _
                (then-NoLonger read32 _
                  (λ index.
                    index-NoLonger index _
                      (then-NoLonger read32 _ (λ offset i. omega arith) (number-NoLonger 4)))
                  (number-NoLonger 4))
                (λ i. omega arith)))))
      (number-Consumes 2 (omega arith))

request-Consumes : Consumes recv_request
unfolding recv_request recv_prod_req recv_seg_req
request-Consumes =
    then-Consumes read16 _
      (λ id. if-NoLonger (id == 3) _ _ (index-read _) (
        if-NoLonger (id == 4) _ _
          (then-NoLonger read32 _
            (λ index.
              then-NoLonger read32 _ (λ offset. index-NoLonger index _ (λ i. omega arith))
                (number-NoLonger 4))
            (number-NoLonger 4))
          (λ i. omega arith)))
      (number-Consumes 2 (omega arith))

common-NoLonger : NoLonger recv_common
unfolding recv_common
common-NoLonger =
    then-NoLonger read16 _
      (λ size.
        then-NoLonger read32 _
          (λ index.
            then-NoLonger read32 _ (λ fits. index-NoLonger index _ (λ i. omega arith))
              (number-NoLonger 4))
          (number-NoLonger 4))
      (number-NoLonger 2)

get_data-NoLonger : (info : SegInfo) → NoLonger (get_data info)
unfolding get_data
get_data-NoLonger info i = read-NoLonger info.seg_size i

chunk-Consumes : (takes : SegInfo → Bool) → Consumes (recv_chunk takes)
unfolding recv_chunk recv_prod_info recv_data_seg
chunk-Consumes takes =
    then-Consumes read16 _
      (λ id.
        if-NoLonger (id == 5) _ _
          (then-NoLonger recv_common _
            (λ c. then-NoLonger (read c.2) _ (λ name i. omega arith) (read-NoLonger c.2))
            common-NoLonger)
          (if-NoLonger (id == 6) _ _
            (then-NoLonger recv_common _
              (λ c.
                then-NoLonger read32 _
                  (λ offset.
                    let info : SegInfo = record {
                      id = record { prod_index = c.0; seg_offset = offset };
                      prod_size = c.1;
                      seg_size = c.2;
                    } in
                    if-NoLonger (takes info) _ _ (get_data-NoLonger info) (λ i. omega arith))
                  (number-NoLonger 4))
              common-NoLonger)
            (λ i. omega arith)))
      (number-Consumes 2 (omega arith))

module _ {M : Type 0} (recv : Reader M) (eats : Consumes recv) where
  ends_or-ends :
      (rest : In → List M × End) (m : ℕ) (p : Got M × In)
      → IsShorter m p
      → ((i : In) → length i.incoming < m → (rest i).1 ≢ out_of_fuel)
      → (ends_or rest p).1 ≢ out_of_fuel
  ends_or-ends rest m (got a, i) h ends = ends i h
  ends_or-ends rest m (eof, i) h ends = λ e. absurd (cc)
  ends_or-ends rest m (throws x, i) h ends = λ e. absurd (cc)

  receive-ends :
      (fuel : ℕ) (i : In) → length i.incoming < fuel → (receive recv fuel i).1 ≢ out_of_fuel
  unfolding receive
  receive-ends zero i h = absurd (omega arith)
  receive-ends (suc fuel) i h =
      ends_or-ends (receive recv fuel) (length i.incoming) (recv i) (eats i)
        (λ j less. receive-ends fuel j (omega arith))

-- On every stream of bytes, whatever they are, the loops of `recvNotices()`, `recvRequests()` and
-- `recvChunks()` halt or keep an exception: a bound on the steps above the number of bytes is never
-- reached.
pub loops_end :
    (takes : SegInfo → Bool) (i : In) (fuel : ℕ)
    → length i.incoming < fuel
    → ((receive recv_notice fuel i).1 ≢ out_of_fuel)
      × ((receive recv_request fuel i).1 ≢ out_of_fuel)
      × ((receive (recv_chunk takes) fuel i).1 ≢ out_of_fuel)
loops_end takes i fuel h = (
  receive-ends recv_notice notice-Consumes fuel i h,
  receive-ends recv_request request-Consumes fuel i h,
  receive-ends (recv_chunk takes) (chunk-Consumes takes) fuel i h,
)
