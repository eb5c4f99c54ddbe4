-- ===== src/Linux/X11/Formats.antt =====
-- linux/src/clipboard_manager_x11.cpp: the MIME types that formats() returns, in their order.
use clipboard_helper.Prelude.{List, [], ◌∷◌, Bytes, text}

abbrev pub plain_format : Bytes
plain_format = text "text/plain"

abbrev pub qt_image_format : Bytes
qt_image_format = text "application/x-qt-image"

abbrev pub png_format : Bytes
png_format = text "image/png"

abbrev pub bmp_format : Bytes
bmp_format = text "image/bmp"

abbrev pub x_bmp_format : Bytes
x_bmp_format = text "image/x-bmp"

abbrev pub image_formats : List Bytes
image_formats = png_format ∷ bmp_format ∷ x_bmp_format ∷ qt_image_format ∷ []

abbrev pub files_formats : List Bytes
files_formats = text "text/uri-list" ∷ text "x-special/gnome-copied-files" ∷ []

abbrev pub text_formats : List Bytes
text_formats =
    text "text/plain;charset=utf-8"
    ∷ plain_format
    ∷ text "UTF8_STRING"
    ∷ text "STRING"
    ∷ text "TEXT"
    ∷ []
