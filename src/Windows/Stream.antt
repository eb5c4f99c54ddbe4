-- ===== src/Windows/Stream.antt =====
-- windows/src/virtual_file_provider.cpp, VirtualFileStream: the IStream over a remote file. FetchChunk of
-- the provider is a function of the offset and the size, the bytes or a failure. Pointers that may be
-- null are given by whether they are there.
pub mod Reading
pub mod Seeking
use clipboard_helper.Prelude.{
  ℕ, zero, suc, ◌+◌, ◌-◌, ◌*◌, ◌^◌, ◌≤◌, Option, none, some, Bool, true, false, not, List, [], ◌∷◌,
  ◌++◌, ltb, leb, ◌==◌, if◌then◌else◌, Bytes, is_empty, length, take,
}
use Prim.Native.Nat.{min}
use clipboard_helper.Prelude.Parse.{Parse, parsed, malformed, stuck, ◌>>=◌}

pub record Stream : Type 0 where
  pub size : ℕ
  pub pos : ℕ
  pub reading : Bool

abbrev pub new_stream : ℕ → Stream
new_stream size = record { size = size; pos = 0; reading = false }

-- The HRESULT of FetchChunk with the bytes: `none` is one that FAILED tells.
abbrev pub Fetch : Type 0
Fetch = ℕ → ℕ → Option Bytes

pub data Status : Type 0 where
  s_ok s_false fetch_failed e_fail stg_e_invalidpointer stg_e_inuse : Status

-- The result of Read with the bytes that it copies; `*pcbRead` is their number.
pub record ReadResult : Type 0 where
  pub status : Status
  pub bytes : Bytes
  pub stream : Stream

abbrev pub refusal : Status → Stream → ReadResult
refusal status s = record { status = status; bytes = []; stream = s }

-- Behind a FetchChunk that succeeds.
unfoldable pub copy_chunk : ℕ → Bytes → Stream → ReadResult
copy_chunk want chunk s =
    let got = min (length chunk) want in
    let s' = record s { pos = s.pos + got } in
    if got == 0 then refusal e_fail s else record {
      status = if leb s.size (s.pos + got) then s_false else s_ok;
      bytes = take got chunk;
      stream = s';
    }

unfoldable pub fetched : Option Bytes → ℕ → Stream → ReadResult
fetched none want s = refusal fetch_failed s
fetched (some chunk) want s = copy_chunk want chunk s

-- `reading_` is set back when Read returns, and is true only within another Read.
unfoldable pub read : Fetch → Bool → ℕ → Stream → ReadResult
read fetch has_buffer cb s =
    let want = min (s.size - s.pos) cb in
    if not has_buffer
    then refusal stg_e_invalidpointer s
    else if cb == 0
    then refusal s_ok s
    else if leb s.size s.pos
    then refusal s_false s
    else if s.reading
    then refusal stg_e_inuse s
    else fetched (fetch s.pos want) want s

-- A signed 64-bit move: `back n` is `-(n + 1)`.
pub data Move : Type 0 where
  ahead : ℕ → Move
  back : ℕ → Move

pub data Origin : Type 0 where
  seek_set seek_cur seek_end other_origin : Origin

unfoldable pub base_of : Origin → Stream → Option ℕ
base_of seek_set s = some 0
base_of seek_cur s = some s.pos
base_of seek_end s = some s.size
base_of other_origin s = none

-- `none` is STG_E_SEEKERROR.
unfoldable pub target_of : ℕ → Move → Option ℕ
target_of base (ahead d) = if ltb (2 ^ 64 - 1 - base) d then none else some (base + d)
target_of base (back n) = if ltb base (n + 1) then none else some (base - (n + 1))

unfoldable pub cap_target : Option ℕ → Option ℕ
cap_target none = none
cap_target (some target) = if ltb (2 ^ 63 - 1) target then none else some target

pub data SeekResult : Type 0 where
  moved : Stream → SeekResult
  stg_e_seekerror : SeekResult
  stg_e_invalidfunction : SeekResult

unfoldable pub seek_to : Option ℕ → Stream → SeekResult
seek_to none s = stg_e_seekerror
seek_to (some target) s = moved (record s { pos = target })

unfoldable pub seek_from : Option ℕ → Move → Stream → SeekResult
seek_from none move s = stg_e_invalidfunction
seek_from (some base) move s = seek_to (cap_target (target_of base move)) s

unfoldable pub seek : Move → Origin → Stream → SeekResult
seek move origin s = seek_from (base_of origin s) move s

-- Clone: the copy starts at the same position, and is not being read.
unfoldable pub clone : Stream → Stream
clone s = record { size = s.size; pos = s.pos; reading = false }

abbrev pub copy_chunk_size : ℕ
copy_chunk_size = 256 * 1024

abbrev pub is_failure : Status → Bool
is_failure s_ok = false
is_failure s_false = false
is_failure fetch_failed = true
is_failure e_fail = true
is_failure stg_e_invalidpointer = true
is_failure stg_e_inuse = true

-- CopyTo into a stream whose Write takes all that it is given: the bytes that it has been given and the
-- stream behind. `malformed` is a failure of Read. The fuel is the rounds left.
unfoldable pub copied : ReadResult → (ℕ → Stream → Parse (Bytes × Stream)) → Parse (Bytes × Stream)
copied r more =
    if is_failure r.status
    then malformed
    else if is_empty r.bytes
    then parsed ([], r.stream)
    else more (length r.bytes) r.stream >>= (λ (rest, s). parsed (r.bytes ++ rest, s))

unfoldable pub copy_to : Fetch → ℕ → ℕ → Stream → Parse (Bytes × Stream)
copy_to fetch zero remaining s = if remaining == 0 then parsed ([], s) else stuck
copy_to fetch (suc fuel) remaining s =
    let next =
      copied (read fetch true (min remaining copy_chunk_size) s)
        (λ got s'. copy_to fetch fuel (remaining - got) s') in
    if remaining == 0 then parsed ([], s) else next
