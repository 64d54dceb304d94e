-- ===== src/Bridge/Relay.antt =====
-- src/hermes_link/integrations/hermes_agent/bridge.py: `_relay_chat_stream`. The response is the
-- list of what its reads return, the writer is the callback with the state of the client behind
-- it, and a text stands for its UTF-8 encoding. `chunk.decode` is a parameter.
pub mod Laws
use hermes_link_server.Prelude.{
  ℕ, Text, text, strip, is_empty, Bool, true, false, not, ◌==◌, if◌then◌else◌, List, [], ◌∷◌, ◌++◌,
  keep,
}
use hermes_link_server.Bridge.Sse.{split_blocks}
use hermes_link_server.Bridge.Trace.{Terminal, pending}

-- What a call of `write_chunk` does: it returns a Boolean or raises OSError.
pub data Written : Type 0 where
  returned : Bool → Written
  os_error : Written

abbrev pub still_connected : Written → Bool
still_connected (returned b) = b
still_connected os_error = false

-- `chat_terminal_state = terminal_state`, if that is not empty
abbrev pub latest : Terminal → Terminal → Terminal
latest old pending = old
latest old new = new

-- `.replace("\r", "")`
unfoldable pub drop_returns : Text → Text
drop_returns s = keep (λ c. not (c == 13)) s

-- `_chat_stream_terminal_state` and `_normalize_chat_sse_event`
module _ (terminal_of : Text → Terminal) (normalize : Text → Text) where
  module _ {ℓ} {Client : Type ℓ} (write_chunk : Text → Client → Written × Client) where
    -- The local variables of the loop but the buffer, with the client.
    pub record Relay : Type ℓ where
      pub terminal : Terminal
      pub connected : Bool
      pub client : Client

    -- the attempt to write one block
    pub offer : Bool → Text → Client → Bool × Client
    offer false block client = (false, client)
    offer true block client =
        let (written, client') = write_chunk block client in (still_connected written, client')

    -- the body of the inner loop
    unfoldable pub relay_block : Text → Relay → Relay
    unfolding offer text
    relay_block block r =
        let (connected, client) = offer r.connected (normalize block ++ text "\n\n") r.client in
        record {
          terminal = latest r.terminal (terminal_of block);
          connected = connected;
          client = client;
        }

    unfoldable pub relay_blocks : List Text → Relay → Relay
    relay_blocks [] r = r
    relay_blocks (b ∷ bs) r = relay_blocks bs (relay_block b r)

    -- `if sse_buffer.strip():` and what follows
    unfoldable pub finish_relay : Text → Relay → Relay
    unfolding strip
    finish_relay buffer r = if is_empty (strip buffer) then r else relay_block buffer r

    module _ (decode : Text → Text) where
      -- The outer loop: an empty read ends it, and so does the end of the response.
      unfoldable pub relay_reads : List Text → Text → Relay → Relay
      unfolding drop_returns split_blocks
      relay_reads [] buffer r = finish_relay buffer r
      relay_reads ([] ∷ chunks) buffer r = finish_relay buffer r
      relay_reads ((c ∷ chunk) ∷ chunks) buffer r =
          let (blocks, rest) = split_blocks (buffer ++ drop_returns (decode (c ∷ chunk))) in
          relay_reads chunks rest (relay_blocks blocks r)

      -- `_relay_chat_stream`
      unfoldable pub relay_chat_stream : List Text → Client → Terminal × Client
      relay_chat_stream chunks client =
          let r =
            relay_reads chunks []
              (record { terminal = pending; connected = true; client = client }) in
          (r.terminal, r.client)
