-- ===== src/Windows/Access.antt =====
-- windows/src/clipboard_ops.cpp: the functions that write to the clipboard and advertise formats. The
-- Board is what the clipboard holds, whether this process has it open, and how many blocks of memory
-- this process still owns; Answers is what the Win32 calls return during one function. A format is its
-- number, and a block is its bytes; `none` is a format that is rendered later.
pub mod Errors
pub mod Reads
pub mod Virtual
pub mod Contract
use clipboard_helper.Prelude.{
  ℕ, zero, suc, ◌+◌, ◌-◌, Option, none, some, Bool, true, false, not, ◌&&◌, ◌||◌, List, [], ◌∷◌,
  ◌++◌, ◌==◌, if◌then◌else◌, Bytes, is_empty, length,
}
use clipboard_helper.Proto.ContentType
use clipboard_helper.Windows.Codec.Files.{Wide}
use clipboard_helper.Windows.Formats.{is_held, build_cf_dib_v5_payload, build_cf_hdrop_payload}
use clipboard_helper.Windows.Formats.Layout.{units_le}
use clipboard_helper.Windows.Formats.Dib.{BgraImage}

abbrev pub cf_dib : ℕ
cf_dib = 8

abbrev pub cf_unicodetext : ℕ
cf_unicodetext = 13

abbrev pub cf_hdrop : ℕ
cf_hdrop = 15

abbrev pub cf_dibv5 : ℕ
cf_dibv5 = 17

pub record Board : Type 0 where
  pub is_open : Bool
  pub blocks : ℕ
  pub content : List (ℕ × Option Bytes)

-- `held` is the counter of OsClipboardHeldGuard, `opens` the answers of OpenClipboard, in their order;
-- an attempt behind the last answer fails. `accepts` is whether SetClipboardData takes a format.
pub record Answers : Type 0 where
  pub held : ℕ
  pub opens : List Bool
  pub empties : Bool
  pub allocates : Bool
  pub locks : Bool
  pub accepts : ℕ → Bool

-- The loop of ClipboardScope: `n` attempts are left.
unfoldable pub try_open : ℕ → List Bool → Bool
try_open zero opens = false
try_open (suc n) [] = false
try_open (suc n) (o ∷ opens) = let rest = try_open n opens in if o then true else rest

-- The constructor of ClipboardScope: whether the scope is open.
unfoldable pub opens_scope : Answers → Bool
unfolding try_open
opens_scope a = if is_held a.held then false else try_open 10 a.opens

-- A function in a ClipboardScope, whose destructor closes the clipboard; `refused` is what it does
-- without.
unfoldable pub in_scope : Answers → (Board → Bool × Board) → Bool × Board → Board → Bool × Board
unfolding opens_scope
in_scope a body refused b =
    if opens_scope a
    then (let r = body (record b { is_open = true }) in (r.0, record r.1 { is_open = false }))
    else refused

unfoldable pub global_free : Board → Board
global_free b = record b { blocks = b.blocks - 1 }

-- EmptyClipboard.
unfoldable pub empty_clipboard : Board → Board
empty_clipboard b = record b { content = [] }

-- SetClipboardData with a block, which the clipboard owns if it takes it, and is freed if not.
unfoldable pub give_block : Answers → ℕ → Bytes → Board → Bool × Board
unfolding global_free
give_block a fmt bytes b =
    if a.accepts fmt
    then (true, record b { blocks = b.blocks - 1; content = b.content ++ (fmt, some bytes) ∷ [] })
    else (false, global_free b)

-- GlobalAlloc, GlobalLock and the copy: whether there is a block.
unfoldable pub make_block : Answers → Board → Bool × Board
unfolding global_free
make_block a b =
    if a.allocates
    then (let b' = record b { blocks = b.blocks + 1 } in
        if a.locks then (true, b') else (false, global_free b'))
    else (false, b)

-- A block that is made and given at once.
unfoldable pub put_block : Answers → ℕ → Bytes → Board → Bool × Board
unfolding make_block give_block
put_block a fmt bytes b =
    let made = make_block a b in if made.0 then give_block a fmt bytes made.1 else (false, made.1)

unfoldable pub text_block : Wide → Bytes
text_block s = units_le (s ++ 0 ∷ [])

unfoldable pub write_text_open : Answers → Wide → Board → Bool × Board
unfolding put_block empty_clipboard
write_text_open a s b =
    if a.empties then put_block a cf_unicodetext (text_block s) (empty_clipboard b) else (false, b)

unfoldable pub write_clipboard_text : Answers → Wide → Board → Bool × Board
unfolding in_scope write_text_open
write_clipboard_text a s b = in_scope a (write_text_open a s) (false, b) b

-- WriteClipboardImagePng and WriteClipboardFiles behind the block: the clipboard is opened for it.
unfoldable pub publish_open : Answers → ℕ → Bytes → Board → Bool × Board
unfolding give_block empty_clipboard global_free
publish_open a fmt bytes b =
    if a.empties then give_block a fmt bytes (empty_clipboard b) else (false, global_free b)

unfoldable pub write_payload : Answers → ℕ → Bytes → Board → Bool × Board
unfolding make_block in_scope publish_open global_free
write_payload a fmt payload b =
    if is_empty payload
    then (false, b)
    else (let made = make_block a b in
        if made.0
        then in_scope a (publish_open a fmt payload) (false, global_free made.1) made.1
        else (false, made.1))

-- The payload of a decoded image.
unfoldable pub image_payload : BgraImage → Bytes
image_payload img =
    build_cf_dib_v5_payload img.width img.height (some img.pixels) (length img.pixels)

-- `decoded` is what PngToBgra makes of the image.
unfoldable pub write_clipboard_image_png : Answers → Option BgraImage → Board → Bool × Board
unfolding write_payload image_payload
write_clipboard_image_png a none b = (false, b)
write_clipboard_image_png a (some img) b = write_payload a cf_dibv5 (image_payload img) b

unfoldable pub write_clipboard_files : Answers → List Wide → Board → Bool × Board
unfolding write_payload
write_clipboard_files a paths b =
    if is_empty paths then (false, b) else write_payload a cf_hdrop (build_cf_hdrop_payload paths) b

-- SetClipboardData with a null handle.
unfoldable pub announce_format : Answers → ℕ → Board → Bool × Board
announce_format a fmt b =
    if a.accepts fmt
    then (true, record b { content = b.content ++ (fmt, none) ∷ [] })
    else (false, b)

-- The switch of AnnounceDelayedFormatsForType.
unfoldable pub announce_formats : Answers → ℕ → Board → Bool × Board
unfolding announce_format
announce_formats a type b =
    if type == ContentType.text
    then announce_format a cf_unicodetext b
    else if type == ContentType.image
    then (let r = announce_format a cf_dibv5 b in (r.0, (announce_format a cf_dib r.1).1))
    else (false, b)

unfoldable pub announce_open : Answers → ℕ → Board → Bool × Board
unfolding announce_formats empty_clipboard
announce_open a type b =
    if a.empties then announce_formats a type (empty_clipboard b) else (false, b)

unfoldable pub announce_delayed_formats : Answers → ℕ → Board → Bool × Board
unfolding in_scope announce_open
announce_delayed_formats a type b = in_scope a (announce_open a type) (false, b) b

-- RenderTextDuringWmRenderFormat: the clipboard is open already.
unfoldable pub render_text : Answers → Wide → Board → Bool × Board
unfolding put_block
render_text a s b = put_block a cf_unicodetext (text_block s) b

-- BuildDibV5HGlobalFromPng and RenderImageDuringWmRenderFormat.
unfoldable pub render_payload : Answers → ℕ → Bytes → Board → Bool × Board
unfolding make_block give_block global_free
render_payload a fmt payload b =
    if is_empty payload
    then (false, b)
    else (let made = make_block a b in
        if made.0
        then (if not (fmt == cf_dib) && not (fmt == cf_dibv5)
            then (false, global_free made.1)
            else give_block a fmt payload made.1)
        else (false, made.1))

unfoldable pub render_image : Answers → ℕ → Option BgraImage → Board → Bool × Board
unfolding render_payload image_payload
render_image a fmt none b = (false, b)
render_image a fmt (some img) b = render_payload a fmt (image_payload img) b
