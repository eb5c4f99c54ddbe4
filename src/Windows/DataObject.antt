-- ===== src/Windows/DataObject.antt =====
-- windows/src/virtual_file_provider.cpp: VirtualFileEnum, the enumerator of formats, and
-- VirtualClipboardDataObject, the IDataObject of remote files. An HRESULT is a constructor, a pointer that
-- may be null an Option or a Boolean, and `memory` says whether the call's one allocation succeeds.
-- Reference counts, QueryInterface and SetData are left to COM; the ptd and dwAspect of a FORMATETC, which
-- no test reads, are left out.
pub mod Offered
use clipboard_helper.Prelude.{
  ℕ, zero, suc, ◌+◌, ◌-◌, ◌*◌, ◌/◌, ◌%◌, ◌^◌, Option, none, some, Bool, true, false, not, ◌&&◌,
  ◌||◌, List, [], ◌∷◌, ◌++◌, ltb, leb, ◌==◌, if◌then◌else◌, Bytes, length, take, drop, is_empty,
}
use Prim.Native.Nat.{bit_or, bit_and}
use clipboard_helper.Windows.Codec.Files.{VirtualFileSpec}
use clipboard_helper.Windows.Formats.{build_file_group_descriptor_payload}
use clipboard_helper.Windows.Formats.Layout.{le32}
use clipboard_helper.Windows.Stream.{Stream, new_stream}

-- FORMATETC; `none` is a negative lindex.
pub record Formatetc : Type 0 where
  pub format : ℕ
  pub lindex : Option ℕ
  pub tymed : ℕ

-- VirtualFileEnum.
pub record Enumerator : Type 0 where
  pub formats : List Formatetc
  pub pos : ℕ

pub data Hresult : Type 0 where
  s_ok s_false e_pointer e_invalidarg e_outofmemory e_notimpl : Hresult
  dv_e_formatetc dv_e_tymed dv_e_lindex : Hresult

-- What Next copies, its result and the enumerator behind it.
pub record Fetched : Type 0 where
  pub status : Hresult
  pub copied : List Formatetc
  pub enumerator : Enumerator

-- The loop of Next: `n` entries are still wanted, and `rest` is what stands from `pos_` on.
unfoldable pub next_loop : ℕ → List Formatetc → List Formatetc
next_loop zero rest = []
next_loop (suc n) [] = []
next_loop (suc n) (fe ∷ rest) = fe ∷ next_loop n rest

unfoldable pub next : Bool → Bool → ℕ → Enumerator → Fetched
unfolding next_loop
next has_array has_count celt e =
    let copied = next_loop celt (drop e.pos e.formats) in
    if not has_array
    then record { status = e_pointer; copied = []; enumerator = e }
    else if not has_count && not (celt == 1)
    then record { status = e_invalidarg; copied = []; enumerator = e }
    else record {
      status = if length copied == celt then s_ok else s_false;
      copied = copied;
      enumerator = record e { pos = e.pos + length copied };
    }

unfoldable pub skip : ℕ → Enumerator → Enumerator
skip celt e =
    if ltb (length e.formats - e.pos) celt
    then record e { pos = length e.formats }
    else record e { pos = e.pos + celt }

unfoldable pub reset : Enumerator → Enumerator
reset e = record e { pos = 0 }

-- Clone; `none` is E_OUTOFMEMORY.
unfoldable pub clone_enumerator : Bool → Enumerator → Option Enumerator
clone_enumerator memory e =
    if memory then some (record { formats = e.formats; pos = e.pos }) else none

-- The registered numbers of the four formats.
pub record Registered : Type 0 where
  pub descriptor : ℕ
  pub contents : ℕ
  pub drop_effect : ℕ
  pub file_attributes : ℕ

abbrev pub has_hglobal : Formatetc → Bool
has_hglobal fe = fe.tymed % 2 == 1

abbrev pub has_istream : Formatetc → Bool
has_istream fe = fe.tymed / 4 % 2 == 1

-- FILE_ATTRIBUTE_DIRECTORY or FILE_ATTRIBUTE_NORMAL.
unfoldable pub attributes_of : VirtualFileSpec → ℕ
attributes_of spec = if spec.is_directory then 16 else 128

unfoldable pub or_attributes : ℕ → List VirtualFileSpec → ℕ
or_attributes acc [] = acc
or_attributes acc (spec ∷ specs) = or_attributes (bit_or acc (attributes_of spec)) specs

unfoldable pub and_attributes : ℕ → List VirtualFileSpec → ℕ
and_attributes acc [] = acc
and_attributes acc (spec ∷ specs) = and_attributes (bit_and acc (attributes_of spec)) specs

unfoldable pub attribute_list : List VirtualFileSpec → Bytes
attribute_list [] = []
attribute_list (spec ∷ specs) = le32 (attributes_of spec) ++ attribute_list specs

unfoldable pub file_attributes_array : List VirtualFileSpec → Bytes
file_attributes_array specs =
    le32 (length specs)
    ++ le32 (or_attributes 0 specs)
    ++ le32 (and_attributes (2 ^ 32 - 1) specs)
    ++ attribute_list specs

-- What GetData hands out: a block of memory, or a stream over the file with that id.
pub data Medium : Type 0 where
  hglobal : Bytes → Medium
  istream : Bytes → Stream → Medium

pub data Given : Type 0 where
  given : Medium → Given
  refused : Hresult → Given

-- GlobalAlloc and GlobalLock.
unfoldable pub allocated : Bool → Bytes → Given
allocated memory block = if memory then given (hglobal block) else refused e_outofmemory

unfoldable pub build_file_group_descriptor : Bool → (ℕ → ℕ) → List VirtualFileSpec → Given
unfolding allocated
build_file_group_descriptor memory times specs =
    let payload = build_file_group_descriptor_payload times specs in
    if is_empty payload then refused e_outofmemory else allocated memory payload

-- specs_[lindex], when it is in range.
unfoldable pub spec_at : List VirtualFileSpec → ℕ → Option VirtualFileSpec
spec_at [] i = none
spec_at (spec ∷ specs) zero = some spec
spec_at (spec ∷ specs) (suc i) = spec_at specs i

unfoldable pub open_stream : Bool → Option VirtualFileSpec → Given
open_stream memory none = refused dv_e_lindex
open_stream memory (some spec) =
    if memory then given (istream spec.file_id (new_stream spec.size)) else refused e_outofmemory

unfoldable pub contents_at : Bool → List VirtualFileSpec → Option ℕ → Given
contents_at memory specs none = refused dv_e_lindex
contents_at memory specs (some i) = open_stream memory (spec_at specs i)

module _ (r : Registered) (times : ℕ → ℕ) (specs : List VirtualFileSpec) where
  -- GetData for pointers that are not null.
  unfoldable pub get_data : Bool → Formatetc → Given
  get_data memory fe =
      if fe.format == r.descriptor
      then if has_hglobal fe
        then build_file_group_descriptor memory times specs
        else refused dv_e_tymed
      else if fe.format == r.file_attributes
      then if has_hglobal fe
        then allocated memory (file_attributes_array specs)
        else refused dv_e_tymed
      else if fe.format == r.drop_effect
      then if has_hglobal fe then allocated memory (le32 1) else refused dv_e_tymed
      else if fe.format == r.contents
      then if has_istream fe then contents_at memory specs fe.lindex else refused dv_e_tymed
      else refused dv_e_formatetc

unfoldable pub query_get_data : Registered → Formatetc → Hresult
query_get_data r fe =
    if fe.format == r.descriptor && has_hglobal fe
    then s_ok
    else if fe.format == r.contents && has_istream fe
    then s_ok
    else if fe.format == r.drop_effect && has_hglobal fe
    then s_ok
    else dv_e_formatetc

-- The entries of CFSTR_FILECONTENTS for the files, from number `i` on.
unfoldable pub contents_entries : Registered → ℕ → List VirtualFileSpec → List Formatetc
contents_entries r i [] = []
contents_entries r i (_ ∷ specs) =
    record { format = r.contents; lindex = some i; tymed = 4 } ∷ contents_entries r (i + 1) specs

-- The list of EnumFormatEtc for DATADIR_GET.
unfoldable pub offered_formats : Registered → List VirtualFileSpec → List Formatetc
offered_formats r specs =
    record { format = r.drop_effect; lindex = none; tymed = 1 }
    ∷ record { format = r.descriptor; lindex = none; tymed = 1 }
    ∷ record { format = r.contents; lindex = none; tymed = 4 }
    ∷ contents_entries r 0 specs
