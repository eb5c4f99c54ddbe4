-- ===== src/Tests/Render.antt =====
-- Witnesses for delayed rendering on Windows.
use clipboard_helper.Prelude.{◌≡◌, refl, none, some, true, false, List, [], ◌∷◌}
use clipboard_helper.Proto.ContentType
use clipboard_helper.Windows.Codec.Encoders.{encode_data_request}
use clipboard_helper.Windows.Render.{
  RenderState, new_render_state, announce_render, signal, provide_render, cf_unicodetext, cf_dib,
  cf_dibv5, requested_type, renders, waits, begin_requested, on_render_format, signalled_wake,
  after_wake, adopt, wait_round, Event, announced, provided,
}
use clipboard_helper.Windows.Render.Supply.{no_supply, note_all, IsAmong}
use clipboard_helper.Windows.Render.Renders.{
  on_render_format-Supply, wait_round-Supply, answered_render,
}

abbrev fresh : RenderState
fresh = new_render_state true

abbrev events : List Event
events = announced (1 ∷ []) ContentType.text ∷ provided (1 ∷ []) (104 ∷ 105 ∷ []) ∷ []

on_render_format-Supply_example :
    (requested_type cf_unicodetext ≡ some (note_all events no_supply).kind)
    × IsAmong (104 ∷ 105 ∷ []) (note_all events no_supply).answers
unfolding on_render_format begin_requested requested_type announce_render provide_render signal
    adopt
on_render_format-Supply_example =
    on_render_format-Supply true events cf_unicodetext false true 7 (104 ∷ 105 ∷ []) refl

wait_round-Supply_example :
    ((note_all events no_supply).hash ≡ 1 ∷ [])
    × IsAmong (104 ∷ 105 ∷ []) (note_all events no_supply).answers
unfolding wait_round after_wake announce_render provide_render signal adopt
wait_round-Supply_example =
    wait_round-Supply true events false signalled_wake (1 ∷ []) (104 ∷ 105 ∷ []) refl

answered_render_example :
    (on_render_format cf_dibv5 false true 7 (announce_render (1 ∷ []) 2 fresh)
      ≡ (waits, announce_render (1 ∷ []) 2 fresh, some (encode_data_request (1 ∷ []) 2 7)))
    × ((wait_round false signalled_wake
          (1 ∷ [])
          (provide_render (1 ∷ []) (9 ∷ []) (announce_render (1 ∷ []) 2 fresh))).0
        ≡ renders (9 ∷ []))
    × (on_render_format cf_dib true false 7
          (wait_round false signalled_wake
            (1 ∷ [])
            (provide_render (1 ∷ []) (9 ∷ []) (announce_render (1 ∷ []) 2 fresh))).1
        ≡ (
          renders (9 ∷ []),
          (wait_round false signalled_wake
              (1 ∷ [])
              (provide_render (1 ∷ []) (9 ∷ []) (announce_render (1 ∷ []) 2 fresh))).1,
          none,
        ))
unfolding requested_type
answered_render_example =
    answered_render (1 ∷ []) (9 ∷ []) 2 7 cf_dibv5 cf_dib true false fresh refl (λ e. cc) (λ e. cc)
      refl refl
