-- ===== src/Inet/TcpSock.antt =====
-- `TcpSock::Impl` of main/inet/Socket.cpp: numbers on a byte stream. Each end counts the bytes that
-- it has written or read, and puts a number at a multiple of its size. The stream is taken to bring
-- what was sent, in order; the list of incoming bytes is all that comes before its end.
pub mod Decodes
use hycast.Prelude.{
  ℕ, zero, suc, ◌+◌, ◌-◌, ◌*◌, ◌/◌, ◌%◌, ◌^◌, List, [], ◌∷◌, ◌++◌, leb, if◌then◌else◌, length, take,
  drop, replicate, Error,
}

pub record Out : Type 0 where
  pub sent : List ℕ
  pub bytes_written : ℕ

pub record In : Type 0 where
  pub incoming : List ℕ
  pub bytes_read : ℕ

-- What a function that reads ends with: a value, the end of the stream, or an exception.
pub data Got (A : Type 0) : Type 0 where
  got : A → Got A
  eof : Got A
  throws : Error → Got A

abbrev pub Reader : Type 0 → Type 0
Reader A = In → Got A × In

module _ {A B : Type 0} where
  abbrev pub followed_by : (A → Reader B) → Got A × In → Got B × In
  followed_by k (got a, i) = k a i
  followed_by k (eof, i) = (eof, i)
  followed_by k (throws e, i) = (throws e, i)

  infixl 5 ◌>>=◌
  abbrev pub ◌>>=◌ : Reader A → (A → Reader B) → Reader B
  (r >>= k) i = followed_by k (r i)

abbrev pub returned : {A : Type 0} → A → Reader A
returned a i = (got a, i)

-- `padLen()`, in the 64 bits of a `size_t`
unfoldable pub pad_len : ℕ → ℕ → ℕ
pad_len nbytes align = (align + 2 ^ 64 - nbytes) % 2 ^ 64 % align

-- `write()` of bytes
unfoldable pub write : List ℕ → Out → Out
write bytes o = record {
  sent = o.sent ++ bytes;
  bytes_written = (o.bytes_written + length bytes) % 2 ^ 32;
}

unfoldable pub align_write_to : ℕ → Out → Out
align_write_to nbytes o = write (replicate (pad_len o.bytes_written nbytes) 0) o

-- The bytes of a number after `hton()`, the most significant one first.
abbrev pub network16 : ℕ → List ℕ
network16 value = value / 2 ^ 8 % 2 ^ 8 ∷ value % 2 ^ 8 ∷ []

abbrev pub network32 : ℕ → List ℕ
network32 value =
    value / 2 ^ 24 % 2 ^ 8 ∷ value / 2 ^ 16 % 2 ^ 8 ∷ value / 2 ^ 8 % 2 ^ 8 ∷ value % 2 ^ 8 ∷ []

unfoldable pub write16 : ℕ → Out → Out
write16 value o = write (network16 value) (align_write_to 2 o)

unfoldable pub write32 : ℕ → Out → Out
write32 value o = write (network32 value) (align_write_to 4 o)

-- `read()` of bytes; at the end of the stream it has taken what was left
unfoldable pub read : ℕ → Reader (List ℕ)
read nbytes i =
    if leb nbytes (length i.incoming)
    then (
      got (take nbytes i.incoming),
      record { incoming = drop nbytes i.incoming; bytes_read = (i.bytes_read + nbytes) % 2 ^ 32 },
    )
    else (eof, record { incoming = []; bytes_read = (i.bytes_read + length i.incoming) % 2 ^ 32 })

-- `alignReadTo()` ignores what `read()` returns
unfoldable pub align_read_to : ℕ → In → In
align_read_to nbytes i = (read (pad_len i.bytes_read nbytes) i).1

-- The number that the bytes give after `ntoh()`.
abbrev pub host : List ℕ → ℕ → ℕ
host [] acc = acc
host (b ∷ bs) acc = host bs (acc * 2 ^ 8 + b)

unfoldable pub read_number : ℕ → Reader ℕ
read_number nbytes i =
    followed_by (λ bytes. returned (host bytes 0)) (read nbytes (align_read_to nbytes i))

abbrev pub read16 : Reader ℕ
read16 = read_number 2

abbrev pub read32 : Reader ℕ
read32 = read_number 4
