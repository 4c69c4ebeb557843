-- ===== src/Atp/Server/Delivery.antt =====
-- atp/server.go, handleClosure: which errors reach the client.
use arcaflow_plugin_sdk_go.Common.{
  Bytes, Bool, true, false, not, ◌||◌, List, [], ◌∷◌, ◌++◌, map, Option, some, ◌≡◌, refl, arith,
  any,
}
use arcaflow_plugin_sdk_go.Atp.Protocol.{RuntimeMessage}
use arcaflow_plugin_sdk_go.Atp.Server.{ServerError, ServerErrorText, to_message, handle_closure}

module _ (text_of : ServerErrorText → Bytes) (sends : RuntimeMessage → Bool) where
  -- The errors after which handleClosure stops.
  abbrev pub stops : ServerError → Bool
  stops e = not (sends (to_message text_of e)) || e.server_fatal

  -- Where sending works and no error is fatal for the server, every error is sent, in order, and stdin
  -- stays open.
  pub handle_closure-all :
      (closes : Bool) (es : List ServerError)
      → any stops es ≡ false
      → handle_closure text_of sends closes (map some es) ≡ (es, map (to_message text_of) es, false)
  unfolding handle_closure
  handle_closure-all closes [] h = refl
  handle_closure-all closes (e ∷ es) h =
      let go : stops e ≡ false = ground arith in
      rw (go, handle_closure-all closes es (ground arith))

  -- Where closing stdin works: at the first error that is fatal for the server, or that cannot be sent, handleClosure closes stdin
  -- and returns the errors up to it, all of which it has sent or tried to send.
  handle_closure-stops :
      (pre : List ServerError) (e : ServerError) (post : List (Option ServerError))
      → any stops pre ≡ false
      → stops e ≡ true
      → handle_closure text_of sends true (map some pre ++ (some e ∷ post))
        ≡ (pre ++ (e ∷ []), map (to_message text_of) (pre ++ (e ∷ [])), true)
  unfolding handle_closure
  handle_closure-stops [] e post h k = ground (arith, k)
  handle_closure-stops (d ∷ pre) e post h k =
      let go : stops d ≡ false = ground arith in
      rw (go, handle_closure-stops pre e post (ground arith) k)
