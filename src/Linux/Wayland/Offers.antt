-- ===== src/Linux/Wayland/Offers.antt =====
-- linux/src/clipboard_manager_wayland.cpp: the offers of other clients. An offer is given by its
-- pointer, 0 is the null pointer; offer_mimes_ is an association list, one entry for each offer. The
-- calls on the compositor's library are an offer's destruction and its `receive`.
use clipboard_helper.Prelude.{
  ℕ, ◌*◌, ◌-◌, Option, none, some, Bool, true, false, List, [], ◌∷◌, ◌++◌, if◌then◌else◌, ◌==◌,
  Bytes, length, take, bytes_eq,
}
use clipboard_helper.Linux.Manager.{pushed}
use clipboard_helper.Linux.Socket.{Arrival, arrived, interrupted, closed, failed}
use clipboard_helper.Linux.Wayland.{WlrState, WlrManager, destroy, text_mime_types}

abbrev pub OfferMap : Type 0
OfferMap = List (ℕ × List Bytes)

-- The device: what it tracks, and the calls so far, the last one first.
pub record Device : Type 0 where
  pub manager : WlrManager
  pub offer_mimes : OfferMap
  pub destroyed : List ℕ
  pub received : List (ℕ × Bytes)

-- `offer_mimes_[offer] = {}`.
unfoldable pub put_offer : ℕ → OfferMap → OfferMap
put_offer offer [] = (offer, []) ∷ []
put_offer offer ((o, mimes) ∷ m) =
    if o == offer then (o, []) ∷ m else (o, mimes) ∷ put_offer offer m

unfoldable pub on_device_data_offer : ℕ → Device → Device
on_device_data_offer offer d =
    if offer == 0 then d else record d { offer_mimes = put_offer offer d.offer_mimes }

unfoldable pub insert_mime : ℕ → Bytes → OfferMap → OfferMap
insert_mime offer mime [] = []
insert_mime offer mime ((o, mimes) ∷ m) =
    if o == offer then (o, mime ∷ mimes) ∷ m else (o, mimes) ∷ insert_mime offer mime m

-- A null pointer for the MIME type is `none`.
unfoldable pub on_offer_mime : ℕ → Option Bytes → Device → Device
on_offer_mime offer none d = d
on_offer_mime offer (some mime) d =
    if offer == 0 then d else record d { offer_mimes = insert_mime offer mime d.offer_mimes }

-- The loop: the MIME types of `keep`, what stays, and what was destroyed.
unfoldable pub drain_loop : ℕ → OfferMap → List Bytes × OfferMap × List ℕ
drain_loop keep [] = ([], [], [])
drain_loop keep ((o, mimes) ∷ m) =
    let (kept, left, gone) = drain_loop keep m in
    if o == keep then (mimes, (o, mimes) ∷ left, gone) else (kept, left, o ∷ gone)

unfoldable pub drain_other_offers : ℕ → Device → List Bytes × Device
drain_other_offers keep d =
    let (kept, left, gone) = drain_loop keep d.offer_mimes in
    (kept, record d { offer_mimes = left; destroyed = gone ++ d.destroyed })

unfoldable pub erase_offer : ℕ → OfferMap → OfferMap
erase_offer offer [] = []
erase_offer offer ((o, mimes) ∷ m) = if o == offer then m else (o, mimes) ∷ erase_offer offer m

unfoldable pub has_mime : Bytes → List Bytes → Bool
has_mime mime [] = false
has_mime mime (m ∷ mimes) = if bytes_eq mime m then true else has_mime mime mimes

-- The first candidate that is offered.
unfoldable pub choose : List Bytes → List Bytes → Option Bytes
choose [] mimes = none
choose (candidate ∷ candidates) mimes =
    if has_mime candidate mimes then some candidate else choose candidates mimes

-- Behind the choice: `pipe_ok` is whether pipe2 succeeds.
unfoldable pub receive_offer : Bool → ℕ → Option Bytes → Device → Device
receive_offer pipe_ok offer none d = record d { destroyed = offer ∷ d.destroyed }
receive_offer pipe_ok offer (some chosen) d =
    if pipe_ok
    then record d { received = (offer, chosen) ∷ d.received; destroyed = offer ∷ d.destroyed }
    else record d { destroyed = offer ∷ d.destroyed }

unfoldable pub forget_text : Device → Device
forget_text d = record d {
  manager = record d.manager { state = record d.manager.state { cached_clipboard_text = none } };
}

unfoldable pub take_selection : Bool → ℕ → Device → Device
take_selection pipe_ok offer d =
    let (mimes, d') = drain_other_offers offer d in
    receive_offer pipe_ok offer (choose text_mime_types mimes)
      (record d' { offer_mimes = erase_offer offer d'.offer_mimes })

-- The selection, by whether the data source on the clipboard is the helper's own.
unfoldable pub selection_from : Option (List Bytes) → Bool → ℕ → Device → Device
selection_from (some source) pipe_ok offer d = (drain_other_offers 0 d).1
selection_from none pipe_ok offer d = take_selection pipe_ok offer d

unfoldable pub on_device_selection : Bool → ℕ → Device → Device
on_device_selection pipe_ok offer d =
    if offer == 0
    then (drain_other_offers 0 (forget_text d)).1
    else selection_from d.manager.current_source pipe_ok offer d

-- S_DevicePrimarySelection, which leaves offer_mimes_ as it is.
unfoldable pub on_device_primary_selection : ℕ → Device → Device
on_device_primary_selection offer d =
    if offer == 0 then d else record d { destroyed = offer ∷ d.destroyed }

abbrev pub keys : OfferMap → List ℕ
keys [] = []
keys ((o, mimes) ∷ m) = o ∷ keys m

-- The destructor with TeardownWaylandObjects.
unfoldable pub tear_down : Device → Device
tear_down d = record d {
  manager = destroy d.manager;
  offer_mimes = [];
  destroyed = keys d.offer_mimes ++ d.destroyed;
}

-- DrainFd over what arrives on the pipe: whether it succeeds, and the bytes that it keeps. A read
-- takes no more than the room that is left.
unfoldable pub drain_fd : ℕ → List Arrival → Bool × Bytes
drain_fd cap [] = (cap == 0, [])
drain_fd cap (arrived [] ∷ es) = (true, [])
drain_fd cap (arrived (b ∷ s) ∷ es) =
    let rest = drain_fd (cap - length (b ∷ s)) es in
    if cap == 0 then (true, []) else (rest.0, take cap (b ∷ s) ++ rest.1)
drain_fd cap (closed ∷ es) = (true, [])
drain_fd cap (interrupted ∷ es) =
    let rest = drain_fd cap es in if cap == 0 then (true, []) else rest
drain_fd cap (failed ∷ es) = (cap == 0, [])

abbrev pub receive_cap : ℕ
receive_cap = 16 * 1024 * 1024

-- The end of DrainAndDispatchOnWorker: the state, and the frame that the callback pushes.
unfoldable pub dispatch_text : ℕ → Bool × Bytes → WlrState → WlrState × Option Bytes
dispatch_text clock (ok, bytes) s =
    if s.stop
    then (s, none)
    else if ok
    then (record s { cached_clipboard_text = some bytes }, pushed s.on_changed clock bytes)
    else (s, none)

unfoldable pub drain_and_dispatch : ℕ → List Arrival → WlrState → WlrState × Option Bytes
drain_and_dispatch clock es s = dispatch_text clock (drain_fd receive_cap es) s
