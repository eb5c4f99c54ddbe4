-- ===== src/Windows/Access/Errors.antt =====
-- windows/src/clipboard_ops.cpp: the writes and the renders on every path, whatever the Win32 calls
-- answer.
use clipboard_helper.Prelude.{
  ℕ, ◌+◌, ◌-◌, ◌≡◌, ◌⊎◌, inl, inr, refl, Option, none, some, Bool, true, false, not, ◌&&◌, List, [],
  ◌∷◌, ◌++◌, ◌==◌, if◌then◌else◌, if-cases, arith, Bytes, is_empty,
}
use clipboard_helper.Windows.Codec.Files.{Wide}
use clipboard_helper.Windows.Formats.{build_cf_hdrop_payload}
use clipboard_helper.Windows.Formats.Dib.{BgraImage}
use clipboard_helper.Windows.Access.{
  Board, Answers, opens_scope, in_scope, global_free, empty_clipboard, give_block, make_block,
  put_block, text_block, write_text_open, write_clipboard_text, publish_open, write_payload,
  image_payload, write_clipboard_image_png, write_clipboard_files, render_text, render_payload,
  render_image, cf_unicodetext, cf_dibv5, cf_dib, cf_hdrop,
}

-- The content behind a write that reports success or failure: the one block, or what was there, if not
-- nothing.
abbrev pub Leaves : Bool → ℕ → Bytes → List (ℕ × Option Bytes) → List (ℕ × Option Bytes) → Type 0
Leaves true fmt bytes before after = after ≡ (fmt, some bytes) ∷ []
Leaves false fmt bytes before after = (after ≡ before) ⊎ (after ≡ [])

-- Behind a write: no block is lost or freed twice, and the clipboard is closed.
abbrev pub IsClean : ℕ → Bytes → Board → Bool × Board → Type 0
IsClean fmt bytes b r =
    (r.1.blocks ≡ b.blocks) × (r.1.is_open ≡ false) × Leaves r.0 fmt bytes b.content r.1.content

-- Behind a write, before the destructor of the scope.
abbrev IsDone : ℕ → ℕ → Bytes → Board → Bool × Board → Type 0
IsDone blocks fmt bytes b r = (r.1.blocks ≡ blocks) × Leaves r.0 fmt bytes b.content r.1.content

-- A property of both ends of GlobalAlloc with GlobalLock: one block more, or nothing changed.
made {ℓ} :
    (P : Bool × Board → Type ℓ) (a : Answers) (b : Board)
    → P (true, record b { blocks = b.blocks + 1 })
    → P (false, b)
    → P (make_block a b)
unfolding make_block global_free
made P a b one none_made =
    if-cases P a.allocates
      (λ _.
        if-cases P a.locks (λ _. one)
          (λ _.
            let e : b.blocks + 1 - 1 ≡ b.blocks = omega arith in
            let same : record b { blocks = b.blocks + 1 - 1 } ≡ b = rw e refl in rw same none_made))
      (λ _. none_made)

-- The one block goes to an empty clipboard, or is freed.
give_block-IsDone :
    (a : Answers) (fmt : ℕ) (bytes : Bytes) (n : ℕ) (b b0 : Board)
    → b.content ≡ []
    → b.blocks ≡ n + 1
    → IsDone n fmt bytes b0 (give_block a fmt bytes b)
unfolding give_block global_free
give_block-IsDone a fmt bytes n b b0 h e =
    if-cases (IsDone n fmt bytes b0) (a.accepts fmt) (λ _. (omega arith, rw h refl))
      (λ _. (omega arith, inr h))

put_block-IsDone :
    (a : Answers) (fmt : ℕ) (bytes : Bytes) (b b0 : Board)
    → b.content ≡ []
    → IsDone b.blocks fmt bytes b0 (put_block a fmt bytes b)
unfolding put_block
put_block-IsDone a fmt bytes b b0 h =
    made
      (λ m. IsDone b.blocks fmt bytes b0 (if m.0 then give_block a fmt bytes m.1 else (false, m.1)))
      a b (give_block-IsDone a fmt bytes b.blocks (record b { blocks = b.blocks + 1 }) b0 h refl)
      (refl, inr h)

-- A scope closes what it opens.
in_scope-IsClean :
    (a : Answers) (fmt : ℕ) (bytes : Bytes) (body : Board → Bool × Board) (refused : Bool × Board)
    (n : ℕ) (b b0 : Board)
    → b0.blocks ≡ n
    → IsDone n fmt bytes b0 (body (record b { is_open = true }))
    → IsClean fmt bytes b0 refused
    → IsClean fmt bytes b0 (in_scope a body refused b)
unfolding in_scope
in_scope-IsClean a fmt bytes body refused n b b0 e done h =
    if-cases (IsClean fmt bytes b0) (opens_scope a) (λ _. (rw e done.0, refl, done.1)) (λ _. h)

module _ (a : Answers) (b : Board) (closed : b.is_open ≡ false) where
  -- WriteClipboardText, whatever the Win32 calls answer, on a clipboard that this process has not open:
  -- the process owns as many blocks as before and has the clipboard closed; behind success the clipboard
  -- holds the text alone, behind failure what it held, or nothing.
  pub write_clipboard_text-IsClean :
      (s : Wide) → IsClean cf_unicodetext (text_block s) b (write_clipboard_text a s b)
  unfolding write_clipboard_text write_text_open empty_clipboard
  write_clipboard_text-IsClean s =
      let opened = record b { is_open = true } in
      in_scope-IsClean a cf_unicodetext (text_block s) (write_text_open a s) (false, b) b.blocks b b
        refl
        (if-cases (IsDone b.blocks cf_unicodetext (text_block s) b) a.empties
          (λ _.
            put_block-IsDone a cf_unicodetext (text_block s) (record opened { content = [] }) b
              refl)
          (λ _. (refl, inl refl)))
        (refl, closed, inl refl)

  write_payload-IsClean :
      (fmt : ℕ) (payload : Bytes) → IsClean fmt payload b (write_payload a fmt payload b)
  unfolding write_payload publish_open empty_clipboard
  write_payload-IsClean fmt payload =
      if-cases (IsClean fmt payload b) (is_empty payload) (λ _. (refl, closed, inl refl))
        (λ _.
          made
            (λ m. IsClean fmt payload b (
              if m.0
              then in_scope a (publish_open a fmt payload) (false, global_free m.1) m.1
              else (false, m.1)))
            a b with_block (refl, closed, inl refl))
    where
      one : Board
      one = record b { blocks = b.blocks + 1 }

      with_block :
          IsClean fmt payload b
            (in_scope a (publish_open a fmt payload) (false, global_free one) one)
      with_block =
          unfold global_free in
          in_scope-IsClean a fmt payload (publish_open a fmt payload)
            (false, record one { blocks = b.blocks + 1 - 1 }) b.blocks one b refl
            (if-cases (IsDone b.blocks fmt payload b) a.empties
              (λ _.
                give_block-IsDone a fmt payload b.blocks
                  (record one { is_open = true; content = [] }) b refl refl)
              (λ _. (omega arith, inl refl)))
            (omega arith, closed, inl refl)

  -- WriteClipboardImagePng, likewise, with the bitmap of the image; an image that cannot be decoded
  -- changes nothing.
  pub write_clipboard_image_png-IsClean :
      (img : BgraImage)
      → IsClean cf_dibv5 (image_payload img) b (write_clipboard_image_png a (some img) b)
        × (write_clipboard_image_png a none b ≡ (false, b))
  unfolding write_clipboard_image_png
  write_clipboard_image_png-IsClean img = (write_payload-IsClean cf_dibv5 (image_payload img), refl)

  -- WriteClipboardFiles, likewise, with the CF_HDROP list of the paths.
  pub write_clipboard_files-IsClean :
      (paths : List Wide)
      → IsClean cf_hdrop (build_cf_hdrop_payload paths) b (write_clipboard_files a paths b)
  unfolding write_clipboard_files
  write_clipboard_files-IsClean paths =
      if-cases (IsClean cf_hdrop (build_cf_hdrop_payload paths) b) (is_empty paths)
        (λ _. (refl, closed, inl refl))
        (λ _. write_payload-IsClean cf_hdrop (build_cf_hdrop_payload paths))

-- A render inside WM_RENDERFORMAT: no block is lost or freed twice, the clipboard stays as open as it
-- is, and a format is added exactly behind success.
abbrev pub IsRendered : ℕ → Bytes → Board → Bool × Board → Type 0
IsRendered fmt bytes b r =
    (r.1.blocks ≡ b.blocks)
    × (r.1.is_open ≡ b.is_open)
    × (r.1.content ≡ (if r.0 then b.content ++ (fmt, some bytes) ∷ [] else b.content))

give_block-IsRendered :
    (a : Answers) (fmt : ℕ) (bytes : Bytes) (b : Board)
    → IsRendered fmt bytes b (give_block a fmt bytes (record b { blocks = b.blocks + 1 }))
unfolding give_block global_free
give_block-IsRendered a fmt bytes b =
    if-cases (IsRendered fmt bytes b) (a.accepts fmt) (λ _. (omega arith, refl, refl))
      (λ _. (omega arith, refl, refl))

-- RenderTextDuringWmRenderFormat, whatever the Win32 calls answer: the blocks that the process owns and
-- whether the clipboard is open stay, and the text is added to the clipboard exactly if it reports
-- success.
pub render_text-IsRendered :
    (a : Answers) (s : Wide) (b : Board)
    → IsRendered cf_unicodetext (text_block s) b (render_text a s b)
unfolding render_text put_block
render_text-IsRendered a s b =
    made
      (λ m.
        IsRendered cf_unicodetext (text_block s) b
          (if m.0 then give_block a cf_unicodetext (text_block s) m.1 else (false, m.1)))
      a b (give_block-IsRendered a cf_unicodetext (text_block s) b) (refl, refl, refl)

-- RenderImageDuringWmRenderFormat, likewise, for any format that it is called with.
pub render_image-IsRendered :
    (a : Answers) (fmt : ℕ) (img : BgraImage) (b : Board)
    → IsRendered fmt (image_payload img) b (render_image a fmt (some img) b)
unfolding render_image render_payload
render_image-IsRendered a fmt img b =
    let payload = image_payload img in
    if-cases (IsRendered fmt payload b) (is_empty payload) (λ _. (refl, refl, refl))
      (λ _.
        made
          (λ m. IsRendered fmt payload b (
            if m.0
            then (if not (fmt == cf_dib) && not (fmt == cf_dibv5)
                then (false, global_free m.1)
                else give_block a fmt payload m.1)
            else (false, m.1)))
          a b
          (unfold global_free in
            if-cases (IsRendered fmt payload b) (not (fmt == cf_dib) && not (fmt == cf_dibv5))
              (λ _. (omega arith, refl, refl)) (λ _. give_block-IsRendered a fmt payload b))
          (refl, refl, refl))
