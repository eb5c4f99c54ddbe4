-- ===== src/Linux/Dispatch/Delivery.antt =====
-- From the parent's frame to the backend: what the Dispatcher hands on for a frame that carries a
-- given text, announcement or payload.
use clipboard_helper.Prelude.{
  ℕ, ◌+◌, ◌%◌, ◌^◌, ◌≤◌, ◌<◌, ◌≡◌, ◌≢◌, ◌∙◌, refl, none, some, false, List, [], ◌∷◌, ◌++◌, arith,
  ◌==◌, if◌then◌else◌, Bytes, is_empty, All-append, length,
}
use clipboard_helper.Prelude.Parse.{parsed}
use clipboard_helper.Proto.MessageType
use clipboard_helper.Proto.ContentType
use clipboard_helper.Proto.Field
use clipboard_helper.Wire.{parse_fields}
use clipboard_helper.Wire.Entries.{Entry, int, chunk, fold_entries}
use clipboard_helper.Wire.Written.{write_entries, IsWritable, entries-write_entries}
use clipboard_helper.Wire.Fields.{
  int_entries, chunk_entries, int_entries-IsWritable, chunk_entries-IsWritable, length-int_entries,
  length-chunk_entries, length-two_parts,
}
use clipboard_helper.Linux.Codec.{
  encode_clipboard_data_inner_text, no_message, no_announcement, no_provide_data,
  parse_helper_message, parse_clipboard_data, parse_announcement, parse_provide_data,
}
use clipboard_helper.Linux.Codec.Encoded.{length-encode_text}
use clipboard_helper.Linux.Codec.RoundTrip.{parse-encode_text}
use clipboard_helper.Linux.Codec.Refines.{
  update_helper_message, update_announcement, update_provide_data, parse_helper_message-entries,
  parse_announcement-entries, parse_provide_data-entries,
}
use clipboard_helper.Linux.Manager.{ClipboardManager}
use clipboard_helper.Linux.Dispatch.{
  Dispatcher, range, handle_set_clipboard, handle_announce_delayed, handle_provide_data, route,
  handle,
}

-- A HelperMessage with one sub-message, as the parent writes it.
unfoldable pub envelope : ℕ → ℕ → Bytes → Bytes
envelope type field inner =
    write_entries ((Field.Message.type, int type) ∷ (field, chunk inner) ∷ [])

-- A ClipboardAnnouncement and a HelperProvideData, as the parent writes them.
unfoldable pub announcement_of : ℕ → Bytes → Bytes
announcement_of kind hash = write_entries (
    int_entries Field.Announcement.content_type kind
    ++ chunk_entries Field.Announcement.content_hash hash)

unfoldable pub provide_data_of : Bytes → Bytes → Bytes
provide_data_of hash bytes = write_entries (
    chunk_entries Field.ProvideData.content_hash hash
    ++ chunk_entries Field.ProvideData.content bytes)

-- The envelope's parse: the type, and the sub-message at its field.
parse-envelope :
    (type field : ℕ) (inner : Bytes)
    → type < 2 ^ 31
    → field < 2 ^ 29
    → length inner < 2 ^ 64
    → parse_helper_message (envelope type field inner)
      ≡ parsed (update_helper_message (record no_message { type = type }) (field, chunk inner))
unfolding envelope
parse-envelope type field inner ht hf hi =
    let fields : List Entry = (Field.Message.type, int type) ∷ (field, chunk inner) ∷ [] in
    let same : type % 2 ^ 32 ≡ type = omega arith in
    rw (
      parse_helper_message-entries (write_entries fields),
      entries-write_entries fields ((omega arith, omega arith), ((hf, hi), tt)),
      same,
    )

is_empty-eq-false : (s : Bytes) → s ≢ [] → is_empty s ≡ false
is_empty-eq-false [] h = absurd (h refl)
is_empty-eq-false (c ∷ s) h = refl

-- The empty input sets nothing.
text-ne-nil :
    (utf8 hash : Bytes)
    → length utf8 < 2 ^ 64
    → length hash < 2 ^ 64
    → encode_clipboard_data_inner_text utf8 hash ≢ []
unfolding parse_clipboard_data parse_fields
text-ne-nil utf8 hash hu hh e = cc (parse-encode_text utf8 hash hu hh)

parse-announcement_of :
    (kind : ℕ) (hash : Bytes)
    → 0 < kind
    → kind < 2 ^ 31
    → length hash < 2 ^ 64
    → parse_announcement (announcement_of kind hash)
      ≡ parsed (record no_announcement { content_type = kind; content_hash = hash })
unfolding announcement_of
parse-announcement_of kind hash h0 hk hh =
    let fields = int_entries 1 kind ++ chunk_entries 2 hash in
    let same : kind % 2 ^ 32 ≡ kind = omega arith in
    let nonzero : (kind == 0) ≡ false = ground arith in
    rw
      (
        parse_announcement-entries (write_entries fields),
        entries-write_entries fields (
            All-append IsWritable (int_entries 1 kind) (chunk_entries 2 hash)
              (int_entries-IsWritable 1 kind (omega arith) (omega arith))
              (chunk_entries-IsWritable 2 hash (omega arith) hh)),
      )
      (fold kind hash nonzero same)
  where
    fold :
        (kind : ℕ) (hash : Bytes)
        → (kind == 0) ≡ false
        → kind % 2 ^ 32 ≡ kind
        → fold_entries update_announcement no_announcement
            (parsed (int_entries 1 kind ++ chunk_entries 2 hash))
          ≡ parsed (record no_announcement { content_type = kind; content_hash = hash })
    fold kind [] z e = rw (z, e)
    fold kind (c ∷ h) z e = rw (z, e)

parse-provide_data_of :
    (hash bytes : Bytes)
    → length hash < 2 ^ 64
    → length bytes < 2 ^ 64
    → parse_provide_data (provide_data_of hash bytes)
      ≡ parsed (record { content_hash = hash; content = bytes })
unfolding provide_data_of
parse-provide_data_of hash bytes hh hb =
    rw
      (
        parse_provide_data-entries (provide_data_of hash bytes),
        entries-write_entries (chunk_entries 1 hash ++ chunk_entries 2 bytes) (
            All-append IsWritable (chunk_entries 1 hash) (chunk_entries 2 bytes)
              (chunk_entries-IsWritable 1 hash (omega arith) hh)
              (chunk_entries-IsWritable 2 bytes (omega arith) hb)),
      )
      (fold hash bytes)
  where
    fold :
        (hash bytes : Bytes)
        → fold_entries update_provide_data no_provide_data
            (parsed (chunk_entries 1 hash ++ chunk_entries 2 bytes))
          ≡ parsed (record { content_hash = hash; content = bytes })
    fold [] [] = refl
    fold [] (c ∷ h) = refl
    fold (b ∷ p) [] = refl
    fold (b ∷ p) (c ∷ h) = refl

announcement-ne-nil :
    (kind : ℕ) (hash : Bytes)
    → 0 < kind
    → kind < 2 ^ 31
    → length hash < 2 ^ 64
    → announcement_of kind hash ≢ []
announcement-ne-nil kind hash h0 hk hh e =
    let nothing : parse_announcement [] ≡ parsed no_announcement =
      unfold parse_announcement parse_fields in refl in
    ground (arith, e, nothing, parse-announcement_of kind hash h0 hk hh)

provide_data-ne-nil :
    (hash bytes : Bytes)
    → 0 < length hash
    → length hash < 2 ^ 64
    → length bytes < 2 ^ 64
    → provide_data_of hash bytes ≢ []
provide_data-ne-nil hash bytes h0 hh hb e =
    let nothing : parse_provide_data [] ≡ parsed no_provide_data =
      unfold parse_provide_data parse_fields in refl in
    ground (arith, e, nothing, parse-provide_data_of hash bytes hh hb)

length-announcement_of :
    (kind : ℕ) (hash : Bytes) → length (announcement_of kind hash) ≤ 20 + (length hash + 20)
unfolding announcement_of
length-announcement_of kind hash =
    length-two_parts (int_entries 1 kind) (chunk_entries 2 hash) 20 (length hash + 20)
      (length-int_entries 1 kind) (length-chunk_entries 2 hash)

length-provide_data_of :
    (hash bytes : Bytes)
    → length (provide_data_of hash bytes) ≤ length hash + 20 + (length bytes + 20)
unfolding provide_data_of
length-provide_data_of hash bytes =
    length-two_parts (chunk_entries 1 hash) (chunk_entries 2 bytes) (length hash + 20)
      (length bytes + 20) (length-chunk_entries 1 hash) (length-chunk_entries 2 bytes)

module _ {M : Type 0} (ops : ClipboardManager M) (d : Dispatcher M) (clock : ℕ) where
  handle-envelope :
      (type field : ℕ) (inner : Bytes)
      → type < 2 ^ 31
      → field < 2 ^ 29
      → length inner < 2 ^ 64
      → handle ops d (envelope type field inner) clock
        ≡ route ops d
            (update_helper_message (record no_message { type = type }) (field, chunk inner))
            clock
  unfolding handle
  handle-envelope type field inner ht hf hi = rw (handle, parse-envelope type field inner ht hf hi)

  -- The backend's operation for an announced kind: 1 is text, 2 an image, 3 files.
  abbrev announce : ℕ → Bytes → M → M
  announce kind hash m =
      if kind == ContentType.text
      then ops.announce_delayed_text hash m
      else if kind == ContentType.image
      then ops.announce_delayed_image hash m
      else ops.announce_delayed_files hash m

  module _ (m : M) (live : d.clipboard ≡ some m) where
    -- SET_CLIPBOARD with a text and a hash, together shorter than 2 ^ 63, and a live backend: the
    -- backend is given that text, nothing else changes, and there is no reply.
    pub handle-set_text :
        (utf8 hash : Bytes)
        → length utf8 + length hash < 2 ^ 63
        → handle ops d
            (envelope MessageType.set_clipboard Field.Message.clipboard_data
              (encode_clipboard_data_inner_text utf8 hash))
            clock
          ≡ (record d { clipboard = some (ops.set_clipboard_text utf8 m) }, [])
    handle-set_text utf8 hash h =
        let inner = encode_clipboard_data_inner_text utf8 hash in
        let full = is_empty-eq-false inner (text-ne-nil utf8 hash (omega arith) (omega arith)) in
        handle-envelope 1 2 inner (omega arith) (omega arith)
          (omega (arith, length-encode_text utf8 hash))
        ∙ (unfold route handle_set_clipboard in
            rw (full, parse-encode_text utf8 hash (omega arith) (omega arith), live) (shown utf8))
      where
        shown :
            (utf8 : Bytes)
            → ◌≡◌ {A = Dispatcher M × Bytes}
                (
                  record d {
                    clipboard = some (
                        ops.set_clipboard_text
                          (range (if is_empty utf8 then none else some utf8))
                          m);
                  },
                  [],
                )
                (record d { clipboard = some (ops.set_clipboard_text utf8 m) }, [])
        shown [] = refl
        shown (c ∷ s) = refl

    -- PROVIDE_DATA with a hash that is not empty and bytes, together shorter than 2 ^ 63, and a live
    -- backend: the backend is given the hash and the bytes, nothing else changes, no reply.
    pub handle-provide_data :
        (hash bytes : Bytes)
        → 0 < length hash
        → length hash + length bytes < 2 ^ 63
        → handle ops d
            (envelope MessageType.provide_data Field.Message.provide_data
              (provide_data_of hash bytes))
            clock
          ≡ (record d { clipboard = some (ops.provide_data hash bytes m) }, [])
    handle-provide_data hash bytes h0 h =
        let inner = provide_data_of hash bytes in
        let full =
          is_empty-eq-false inner (provide_data-ne-nil hash bytes h0 (omega arith) (omega arith)) in
        handle-envelope 3 4 inner (omega arith) (omega arith)
          (omega (arith, length-provide_data_of hash bytes))
        ∙ (unfold route handle_provide_data in
            rw (full, parse-provide_data_of hash bytes (omega arith) (omega arith), live))

    -- ANNOUNCE_DELAYED of a text, an image or files, with a hash shorter than 2 ^ 63, and a live
    -- backend: its operation for that kind is given the hash, nothing else changes, no reply.
    pub handle-announcement :
        (kind : ℕ) (hash : Bytes)
        → 0 < kind
        → kind < 4
        → length hash < 2 ^ 63
        → handle ops d
            (envelope MessageType.announce_delayed Field.Message.announcement
              (announcement_of kind hash))
            clock
          ≡ (record d { clipboard = some (announce kind hash m) }, [])
    handle-announcement kind hash h0 hk h =
        let inner = announcement_of kind hash in
        let full =
          is_empty-eq-false inner (announcement-ne-nil kind hash h0 (omega arith) (omega arith)) in
        handle-envelope 2 3 inner (omega arith) (omega arith)
          (omega (arith, length-announcement_of kind hash))
        ∙ (unfold route handle_announce_delayed in
            rw (full, parse-announcement_of kind hash h0 (omega arith) (omega arith), live)
              (ground arith))
