-- ===== src/Tests/Client.antt =====
-- Concrete reports of the server-info endpoint.
use hermes_link_server.Prelude.{Text, text, text_eq, length, ltb, ◌||◌, ◌≡◌, refl, none, some, []}
use hermes_link_server.Json.{Json, str, obj, Fields, end, field}
use hermes_link_server.Adapter.Client.{
  AgentReply, empty_reply, replied, adapter_origin, get_server_info,
}
use hermes_link_server.Adapter.Client.Laws.{is_unusable, IsReported, get_server_info-IsReported}

abbrev no_repr : Json → Text
no_repr v = []

abbrev reply : AgentReply
reply = replied (obj (field "status" (str (text " busy ")) end))

origin_run : adapter_origin (text "http://localhost:8080/") ≡ some (text "http://localhost:8080")
unfolding adapter_origin text text_eq
origin_run = refl

-- A base URL of the local host to which the proxy would send requests.
other_port_run : adapter_origin (text "http://127.0.0.1:9000") ≡ none
unfolding adapter_origin text text_eq
other_port_run = refl

get_server_info-IsReported_example :
    (info : Fields) × (get_server_info no_repr
        (text "0.2.0")
        (text "http://localhost:8080/")
        (text "agent-token")
        reply
        none
      ≡ some info)
    × IsReported no_repr (ltb (length (text "agent-token")) 8 || is_unusable no_repr reply) info
    × (reply ≡ empty_reply
        → get_server_info no_repr
            (text "0.2.0")
            (text "http://localhost:8080/")
            (text "agent-token")
            reply
            none
          ≡ get_server_info no_repr
              (text "0.2.0")
              (text "http://localhost:8080/")
              (text "agent-token")
              (replied (obj end))
              none)
get_server_info-IsReported_example =
    get_server_info-IsReported no_repr (text "0.2.0") (text "http://localhost:8080/")
      (text "http://localhost:8080") (text "agent-token") reply none origin_run
      (unfold text in refl)
