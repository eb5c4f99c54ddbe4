-- ===== src/Linux/Wayland/Mimes.antt =====
-- linux/src/clipboard_manager_wayland.cpp: the advertised MIME types, in their order.
use clipboard_helper.Prelude.{List, [], ◌∷◌, Bytes, text}

abbrev pub text_mime_types : List Bytes
text_mime_types =
    text "text/plain;charset=utf-8"
    ∷ text "UTF8_STRING"
    ∷ text "text/plain"
    ∷ text "TEXT"
    ∷ text "STRING"
    ∷ []

abbrev pub png_mime : Bytes
png_mime = text "image/png"

abbrev pub bmp_mime : Bytes
bmp_mime = text "image/bmp"

abbrev pub x_bmp_mime : Bytes
x_bmp_mime = text "image/x-bmp"

abbrev pub image_mime_types : List Bytes
image_mime_types = png_mime ∷ bmp_mime ∷ x_bmp_mime ∷ []

abbrev pub files_mime_types : List Bytes
files_mime_types = text "text/uri-list" ∷ text "x-special/gnome-copied-files" ∷ []
