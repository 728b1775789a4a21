-- ===== src/Inotify.antt =====
-- `parse_inotify_buffer` of src/remote_sandbox/remote_agent/inotify.py: the records that the kernel writes.
-- Bytes are numbers, the machine is little-endian, and a name stays the bytes that it is decoded from.
pub mod Parsed
use remote_sandbox_cli.Base.{
  ◌≡◌, ℕ, zero, suc, ◌+◌, ◌-◌, ◌*◌, ◌/◌, ◌%◌, Bool, true, false, Option, none, some, List, [], ◌∷◌,
  ◌++◌, if◌then◌else◌, ◌==◌, nat_eq, length, ltb, leb,
}
use remote_sandbox_cli.Base.Result.{Result, ok, err, value_error, ◌>>=◌, ◌>>◌, require}
use remote_sandbox_cli.Manifest.{ℤ, pos, negsuc}

pub record InotifyEvent : Type 0 where
  pub watch_descriptor : ℤ
  pub mask : ℕ
  pub cookie : ℕ
  pub name : List ℕ
  pub overflow : Bool

-- An unsigned word of four bytes.
abbrev pub word : ℕ → ℕ → ℕ → ℕ → ℕ
word a b c d = a + 256 * b + 65536 * c + 16777216 * d

-- A signed word of four bytes, from the unsigned one.
abbrev pub signed : ℕ → ℤ
signed n = if ltb n 2147483648 then pos n else negsuc (4294967295 - n)

-- `bool(mask & IN_Q_OVERFLOW)`: the bit of 2 ^ 14.
abbrev pub is_overflow : ℕ → Bool
is_overflow mask = mask / 16384 % 2 == 1

abbrev pub take : ℕ → List ℕ → List ℕ
take n [] = []
take zero (b ∷ bytes) = []
take (suc n) (b ∷ bytes) = b ∷ take n bytes

-- `raw_name.split(b"\0", 1)[0]`
abbrev pub until_zero : List ℕ → List ℕ
until_zero [] = []
until_zero (b ∷ bytes) = let rest = until_zero bytes in if b == 0 then [] else b ∷ rest

-- What `_HEADER.unpack_from` reads: the descriptor, mask, cookie and the length of the name.
pub record Header : Type 0 where
  pub descriptor : ℕ
  pub mask : ℕ
  pub cookie : ℕ
  pub name_length : ℕ

abbrev pub words : List ℕ → Option (ℕ × List ℕ)
words (a ∷ b ∷ c ∷ d ∷ rest) = some (word a b c d, rest)
words bytes = none

abbrev pub then_word : {A : Type 0} → Option (ℕ × List ℕ) → (ℕ → List ℕ → Option A) → Option A
then_word none f = none
then_word (some (n, rest)) f = f n rest

-- The header, and the bytes behind it, where there are sixteen bytes.
unfoldable pub unpack : List ℕ → Option (Header × List ℕ)
unpack bytes = then_word (words bytes) (λ descriptor bytes. then_word (words bytes) (λ mask bytes.
    then_word (words bytes) (λ cookie bytes. then_word (words bytes) (λ name_length bytes. some (
      record { descriptor = descriptor; mask = mask; cookie = cookie; name_length = name_length },
      bytes,
    )))))

abbrev pub event_at : Header → List ℕ → InotifyEvent
event_at h bytes = record {
  watch_descriptor = signed h.descriptor;
  mask = h.mask;
  cookie = h.cookie;
  name = until_zero (take h.name_length bytes);
  overflow = is_overflow h.mask;
}

-- How many bytes behind the first one belong to the record.
abbrev pub record_tail : Option (Header × List ℕ) → ℕ
record_tail none = 0
record_tail (some (h, bytes)) = 15 + h.name_length

abbrev pub add_event :
    Option (Header × List ℕ) → Result (List InotifyEvent) → Result (List InotifyEvent)
add_event none rest = err value_error
add_event (some (h, bytes)) rest = do
  require (leb h.name_length (length bytes)) value_error
  events ← rest
  ok (event_at h bytes ∷ events)

-- The loop, of which the first bytes belong to the record before.
unfoldable pub parse_from : ℕ → List ℕ → Result (List InotifyEvent)
parse_from n [] = ok []
parse_from (suc n) (b ∷ bytes) = parse_from n bytes
parse_from zero (b ∷ bytes) =
    let found = unpack (b ∷ bytes) in add_event found (parse_from (record_tail found) bytes)

-- `parse_inotify_buffer`
unfoldable pub parse_inotify_buffer : List ℕ → Result (List InotifyEvent)
parse_inotify_buffer bytes = parse_from 0 bytes
