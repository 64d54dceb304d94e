-- ===== src/Bridge/Upstream/Laws.antt =====
-- A completed chat is published whatever becomes of the client.
use hermes_link_server.Prelude.{Text, ◌≡◌, refl, Bool-cases, inl, inr}
use hermes_link_server.Bridge.Trace.{Terminal}
use hermes_link_server.Bridge.Relay.Laws.{relay_chat_stream_drains}
use hermes_link_server.Bridge.Access.{Environment}
use hermes_link_server.Bridge.Upstream.{
  Response, Socket, is_chat_stream, relay_response, send_response,
}

module _ (env : Environment) (terminal_of : Text → Terminal) (normalize decode : Text → Text)
    (accepted : Text) where
  module _ {ℓ κ} {A : Type ℓ} {B : Type κ} (socket_a : Socket A) (socket_b : Socket B) where
    -- The state of the chat after a response, and with it the publication of the chat, does not
    -- depend on the client: it is the same whether the client takes the headers and every write,
    -- or is gone before the headers or at any write.
    pub send_response_drains :
        (path : Text) (response : Response) (a : A) (b : B)
        → (send_response env terminal_of normalize decode accepted socket_a path response a).0
          ≡ (send_response env terminal_of normalize decode accepted socket_b path response b).0
    unfolding send_response relay_response
    send_response_drains path response a b = elim (Bool-cases (is_chat_stream path response)) [
      | inl chat ↦ rw chat (relay_chat_stream_drains terminal_of normalize _ _ decode _ _ _)
      | inr other ↦ rw other refl
    ]
