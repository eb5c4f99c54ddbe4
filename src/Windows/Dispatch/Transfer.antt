-- ===== src/Windows/Dispatch/Transfer.antt =====
-- windows/src/dispatch.cpp: HandleFileChunkRequest against the file that it reads.
use clipboard_helper.Prelude.{
  ℕ, zero, suc, ◌+◌, ◌-◌, ◌*◌, ◌≤◌, ◌<◌, ◌≡◌, refl, sym, ap, inl, inr, Option, none, some, [], ◌++◌,
  arith, if◌then◌else◌, ltb, Bytes, length, length-take, length-drop, take, drop, take-append-drop,
  drop_more, take_all, Bool-cases,
}
use clipboard_helper.Prelude.Parse.{parsed}
use clipboard_helper.Windows.Codec.Files.{Wide}
use clipboard_helper.Windows.Codec.Chunks.{
  encode_file_chunk_data, ParsedFileChunkRequest, parse_file_chunk_request,
}
use clipboard_helper.Windows.Dispatch.{send_frame, got, World, Dispatcher, call}
use clipboard_helper.Windows.Dispatch.Files.{
  chunk_size, max_chunk_size, Backing, physical, resolve, disk_chunk, chunk_of, pin, reply_chunk,
  serve_chunk, handle_file_chunk_request,
}

-- The size of a chunk is positive and within the cap, and the requested one where that is.
pub chunk_size-bounds :
    (size : ℕ)
    → (0 < chunk_size size)
      × (chunk_size size ≤ max_chunk_size)
      × ((0 < size) → size ≤ max_chunk_size → chunk_size size ≡ size)
unfolding chunk_size
chunk_size-bounds size = ground arith

-- A disk that gives a file's bytes.
abbrev pub Reads : World → Wide → Bytes → Type 0
Reads w path file =
    (offset want : ℕ) → w.read_disk path offset want ≡ got (take want (drop offset file))

-- A request for a chunk of a physical file that can be read: the only effect is one frame, a
-- FILE_CHUNK_DATA under the request's identifiers with the bytes from the offset on, up to the size,
-- marked as the last ones exactly if there are fewer than that.
pub handle_file_chunk_request-physical :
    (w : World) (sub_payload : Bytes) (req : ParsedFileChunkRequest) (d : Dispatcher) (path : Wide)
    (file : Bytes)
    → parse_file_chunk_request sub_payload ≡ parsed req
    → resolve req.file_id d ≡ physical path
    → Reads w path file
    → handle_file_chunk_request w sub_payload d
      ≡ call
          (send_frame (
            encode_file_chunk_data req.transfer_id req.file_id req.offset
              (take (chunk_size req.size) (drop req.offset file))
              (ltb (length file - req.offset) (chunk_size req.size))
              []
              w.clock))
          d
unfolding handle_file_chunk_request serve_chunk reply_chunk chunk_of pin disk_chunk
handle_file_chunk_request-physical w sub_payload req d path file e f reads =
    let want = chunk_size req.size in
    let same : ltb (length (take want (drop req.offset file))) want
        ≡ ltb (length file - req.offset) want =
      short want req.offset in
    rw (e, f, reads req.offset want, same) refl
  where
    short :
        (want offset : ℕ)
        → ltb (length (take want (drop offset file))) want ≡ ltb (length file - offset) want
    short want offset =
        let a = length-take want (drop offset file) in
        let b = length-drop offset file in ground arith

abbrev followed_by : Bytes → Option Bytes → Option Bytes
followed_by bytes none = none
followed_by bytes (some more) = some (bytes ++ more)

-- The parent's loop: chunks of one size, each from behind the one before, up to the one that is marked
-- as the last. Without rounds left there is no result.
abbrev pub pull : World → Backing → ℕ → ℕ → ℕ → Option Bytes
pull w backing want zero offset = none
pull w backing want (suc rounds) offset =
    let (bytes, is_last, error) = chunk_of w backing offset want in
    let rest = pull w backing want rounds (offset + length bytes) in
    if is_last then some bytes else followed_by bytes rest

physical-chunk :
    (w : World) (path : Wide) (file : Bytes) (offset want : ℕ)
    → Reads w path file
    → chunk_of w (physical path) offset want
      ≡ (take want (drop offset file), ltb (length (take want (drop offset file))) want, [])
unfolding chunk_of disk_chunk
physical-chunk w path file offset want reads = rw (reads offset want) refl

-- A physical file that can be read, and chunks of a size that is not 0: as many rounds as there are
-- chunks, a short or empty last one included, give the rest of the file from the offset on.
pub pull-file :
    (w : World) (path : Wide) (file : Bytes) (want rounds offset : ℕ)
    → Reads w path file
    → 0 < want
    → length (drop offset file) < rounds * want
    → pull w (physical path) want rounds offset ≡ some (drop offset file)
pull-file w path file want zero offset reads positive h = absurd (omega arith)
pull-file w path file want (suc rounds) offset reads positive h =
    let rest = drop offset file in
    let size = length-take want rest in
    rw (physical-chunk w path file offset want reads)
      (elim (Bool-cases (ltb (length (take want rest)) want)) [
        | inl e ↦ rw e (ap some (take_all want rest (ground arith)))
        | inr e ↦
            let full : length (take want rest) ≡ want = ground arith in
            let cut = length-drop want rest in
            let more = drop_more want offset file in
            let sum : suc rounds * want ≡ want + rounds * want = omega arith in
            let next =
              pull-file w path file want rounds (offset + want) reads positive
                (rw⁻¹ more (omega arith)) in
            rw (e, full, next, sym more) (ap some (take-append-drop want rest))
      ])
