-- ===== src/Bridge/Relay/Laws.antt =====
-- The relay as a function of the text that the Agent sent.
use hermes_link_server.Prelude.{
  Text, ◌≡◌, refl, sym, ap, ◌∙◌, true, List, [], ◌∷◌, ◌++◌, Bool-cases, inl, inr, strip, is_empty,
}
use mathlib.Core.List.{append_assoc}
use hermes_link_server.Bridge.Sse.{split_blocks, split_blocks-append, split_blocks_open}
use hermes_link_server.Bridge.Trace.{Terminal, pending}
use hermes_link_server.Bridge.Relay.{
  Written, latest, drop_returns, Relay, relay_block, relay_blocks, finish_relay, relay_reads,
  relay_chat_stream,
}

append_nil : (s : Text) → s ++ [] ≡ s
append_nil [] = refl
append_nil (c ∷ s) = ap (λ z. c ∷ z) (append_nil s)

-- The text that the reads deliver before the first empty one.
unfoldable pub received : (Text → Text) → List Text → Text
received decode [] = []
received decode ([] ∷ chunks) = []
received decode ((c ∷ chunk) ∷ chunks) = drop_returns (decode (c ∷ chunk)) ++ received decode chunks

module _ (terminal_of : Text → Terminal) (normalize : Text → Text) where
  module _ {ℓ} {Client : Type ℓ} (write_chunk : Text → Client → Written × Client) where
    abbrev State : Type ℓ
    State = Relay terminal_of normalize write_chunk

    -- The blocks of a whole text, one after the other, and then what is left.
    unfoldable pub relay_text : Text → State → State
    relay_text s r =
        finish_relay terminal_of normalize write_chunk (split_blocks s).1
          (relay_blocks terminal_of normalize write_chunk (split_blocks s).0 r)

    relay_blocks-append :
        (bs cs : List Text) (r : State)
        → relay_blocks terminal_of normalize write_chunk (bs ++ cs) r
          ≡ relay_blocks terminal_of normalize write_chunk cs
              (relay_blocks terminal_of normalize write_chunk bs r)
    unfolding relay_blocks
    relay_blocks-append [] cs r = refl
    relay_blocks-append (b ∷ bs) cs r = relay_blocks-append bs cs _

    relay_text-append :
        (s t : Text) (r : State)
        → relay_text (s ++ t) r
          ≡ relay_text
              ((split_blocks s).1 ++ t)
              (relay_blocks terminal_of normalize write_chunk (split_blocks s).0 r)
    unfolding relay_text
    relay_text-append s t r =
        rw
          (
            split_blocks-append s t,
            relay_blocks-append (split_blocks s).0 (split_blocks ((split_blocks s).1 ++ t)).0 r,
          )
          refl

    module _ (decode : Text → Text) where
      relay_reads_text :
          (chunks : List Text) (buffer : Text) (r : State)
          → split_blocks buffer ≡ ([], buffer)
          → relay_reads terminal_of normalize write_chunk decode chunks buffer r
            ≡ relay_text (buffer ++ received decode chunks) r
      unfolding relay_reads received relay_text relay_blocks
      relay_reads_text [] buffer r e = rw (append_nil buffer, e) refl
      relay_reads_text ([] ∷ chunks) buffer r e = rw (append_nil buffer, e) refl
      relay_reads_text ((c ∷ chunk) ∷ chunks) buffer r e =
          let read = drop_returns (decode (c ∷ chunk)) in
          relay_reads_text chunks (split_blocks (buffer ++ read)).1 _
            (split_blocks_open (buffer ++ read))
          ∙ sym (relay_text-append (buffer ++ read) (received decode chunks) r)
          ∙ ap (λ s. relay_text s r) (append_assoc buffer read (received decode chunks))

      -- The relay is that of the whole text that the reads deliver: wherever the reads cut the
      -- decoded stream, it handles the same blocks in the same order and comes to the same state of
      -- the chat and of the client.
      pub relay_chat_stream_text :
          (chunks : List Text) (client : Client)
          → let r =
              relay_text
                (received decode chunks)
                (record { terminal = pending; connected = true; client = client }) in
            relay_chat_stream terminal_of normalize write_chunk decode chunks client
            ≡ (r.terminal, r.client)
      unfolding relay_chat_stream split_blocks
      relay_chat_stream_text chunks client =
          ap (λ r. (r.terminal, r.client)) (relay_reads_text chunks [] _ refl)

  module _ {ℓ κ} {A : Type ℓ} {B : Type κ} (write_a : Text → A → Written × A)
      (write_b : Text → B → Written × B) where
    relay_block_same :
        (b : Text) (r : Relay terminal_of normalize write_a)
        (s : Relay terminal_of normalize write_b)
        → r.terminal ≡ s.terminal
        → (relay_block terminal_of normalize write_a b r).terminal
          ≡ (relay_block terminal_of normalize write_b b s).terminal
    unfolding relay_block
    relay_block_same b r s e = ap (λ t. latest t (terminal_of b)) e

    relay_blocks_same :
        (bs : List Text) (r : Relay terminal_of normalize write_a)
        (s : Relay terminal_of normalize write_b)
        → r.terminal ≡ s.terminal
        → (relay_blocks terminal_of normalize write_a bs r).terminal
          ≡ (relay_blocks terminal_of normalize write_b bs s).terminal
    unfolding relay_blocks
    relay_blocks_same [] r s e = e
    relay_blocks_same (b ∷ bs) r s e = relay_blocks_same bs _ _ (relay_block_same b r s e)

    finish_relay_same :
        (buffer : Text) (r : Relay terminal_of normalize write_a)
        (s : Relay terminal_of normalize write_b)
        → r.terminal ≡ s.terminal
        → (finish_relay terminal_of normalize write_a buffer r).terminal
          ≡ (finish_relay terminal_of normalize write_b buffer s).terminal
    unfolding finish_relay
    finish_relay_same buffer r s e = elim (Bool-cases (is_empty (strip buffer))) [
      | inl t ↦ rw t e
      | inr t ↦ rw t (relay_block_same buffer r s e)
    ]

    -- The state of the chat that the relay returns does not depend on the client: it is the same
    -- for a client that takes every write, and for one whose connection is lost at any write.
    pub relay_chat_stream_drains :
        (decode : Text → Text) (chunks : List Text) (a : A) (b : B)
        → (relay_chat_stream terminal_of normalize write_a decode chunks a).0
          ≡ (relay_chat_stream terminal_of normalize write_b decode chunks b).0
    unfolding relay_chat_stream relay_reads
    relay_chat_stream_drains decode chunks a b = go chunks [] _ _ refl
      where
        go :
            (chunks : List Text) (buffer : Text) (r : Relay terminal_of normalize write_a)
            (s : Relay terminal_of normalize write_b)
            → r.terminal ≡ s.terminal
            → (relay_reads terminal_of normalize write_a decode chunks buffer r).terminal
              ≡ (relay_reads terminal_of normalize write_b decode chunks buffer s).terminal
        go [] buffer r s e = finish_relay_same buffer r s e
        go ([] ∷ chunks) buffer r s e = finish_relay_same buffer r s e
        go ((c ∷ chunk) ∷ chunks) buffer r s e = go chunks _ _ _ (relay_blocks_same _ r s e)
