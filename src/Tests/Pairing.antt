-- ===== src/Tests/Pairing.antt =====
-- Runs of the pairing store (src/hermes_link/pairing/), with the identity for the digest.
use hermes_link_server.Prelude.{
  Text, text, is_profile_id, ◌≡◌, refl, ◌↔◌, ◌⊎◌, true, false, none, some, List, [], ◌∷◌, ◌++◌,
  contains, full_match, is_url_safe, ltb, if◌then◌else◌,
}
use hermes_link_server.Json.{Json, obj, str, int, pos, field, end}
use hermes_link_server.Pairing.Validation.{
  ok, err, pairing_error, validate_base_url, validate_code, is_device_token,
}
use hermes_link_server.Pairing.Profiles.{normalize_profiles, load_profiles, dump_profiles}
use hermes_link_server.Pairing.Store.{
  Db, PairingTicket, Exchange, connect, create_ticket, exchange, device_profile_ids,
  authenticate_device_token, revoke_device_token, current_profile,
}
use hermes_link_server.Pairing.Store.Traces.{Call, create, redeem_code, scope, run}
use hermes_link_server.Pairing.Store.Spent.{exchange_once}
use hermes_link_server.Pairing.Store.Revoked.{revoke_forever}
use hermes_link_server.Pairing.Store.Grant.{IsRedeemable, exchange-eq-ok_iff, exchange-authenticate}
use hermes_link_server.Pairing.Store.Lifecycle.{
  IsIssued, create_ticket-IsIssued, create_ticket-exchange,
}
use hermes_link_server.Pairing.Store.Unique.{IsKeyed, run-IsKeyed}
use hermes_link_server.Pairing.Http.{exchange_pairing_payload}
use hermes_link_server.Pairing.Http.Laws.{Outcome, exchange_pairing_payload-Outcome}

abbrev digest : Text → Text
digest t = t

abbrev no_rows : Db
no_rows = record { tickets = []; devices = [] }

abbrev code : Text
code = text "0123456789abcdefghijABCDEFGHIJ-_"

abbrev code_2 : Text
code_2 = text "zz23456789abcdefghijABCDEFGHIJ-_"

abbrev drawn : Text
drawn = text "dddddddddddddddddddddddddddddddddddddddd"

abbrev drawn_2 : Text
drawn_2 = text "eeeeeeeeeeeeeeeeeeeeeeeeeeeeeeeeeeeeeeee"

abbrev site : Text
site = text " https://hermes.example.org/ "

abbrev secret : Text
secret = text "mobile-api-token"

abbrev wanted : List Text
wanted = text " work " ∷ text "default" ∷ text "work" ∷ text "a/b" ∷ []

-- the database with one ticket, created at 1000 for 600 seconds
abbrev with_ticket : Db
with_ticket = (create_ticket digest site secret (pos 600) 1000 wanted code no_rows).1

abbrev printed : PairingTicket
printed = record {
  pairing_url =
      text "https://hermes.example.org/api/mobile/pair?code=0123456789abcdefghijABCDEFGHIJ-_&v=1";
  expires_at = 1600;
}

create_runs : (create_ticket digest site secret (pos 600) 1000 wanted code no_rows).0 ≡ ok printed
unfolding create_ticket validate_base_url normalize_profiles dump_profiles text
create_runs = refl

abbrev device : Exchange
device = record {
  base_url = text "https://hermes.example.org";
  device_id = text "dev_0001";
  device_token = text "hmd_dddddddddddddddddddddddddddddddddddddddd";
  profiles = text "work" ∷ text "default" ∷ [];
}

exchange_runs : (exchange digest code 1599 (text "0001") drawn with_ticket).0 ≡ ok device
unfolding exchange create_ticket validate_base_url validate_code normalize_profiles load_profiles
    dump_profiles text contains is_profile_id
exchange_runs = refl

abbrev paired : Db
paired = (exchange digest code 1599 (text "0001") drawn with_ticket).1

revoke_runs : (revoke_device_token digest device.device_token 2000 paired).0 ≡ true
unfolding revoke_device_token exchange create_ticket validate_base_url validate_code
    normalize_profiles load_profiles dump_profiles is_device_token text contains is_profile_id
revoke_runs = refl

abbrev calls : List Call
calls =
    create site secret (pos 60) 1700 [] code_2
    ∷ scope device.device_token 1800
    ∷ redeem_code code_2 1750 (text "0002") drawn_2
    ∷ []

exchange_once_example :
    exchange digest code 5
      (text "0003")
      drawn_2
      (run digest calls (exchange digest code 1599 (text "0001") drawn with_ticket).1)
    ≡ (
      err (pairing_error "Pairing code has already been used" "pairing_used"),
      connect digest
          (run digest calls (exchange digest code 1599 (text "0001") drawn with_ticket).1),
    )
exchange_once_example =
    exchange_once digest code 1599 (text "0001") drawn with_ticket calls 5 (text "0003") drawn_2
      exchange_runs

revoke_forever_example :
    let after = run digest calls (revoke_device_token digest device.device_token 2000 paired).1 in
    ((device_profile_ids digest device.device_token 9000 after).0 ≡ none)
    × ((authenticate_device_token digest device.device_token (text "work") 9000 after).0 ≡ false)
    × ((revoke_device_token digest device.device_token 9000 after).0 ≡ false)
revoke_forever_example =
    revoke_forever digest device.device_token 2000 paired calls (text "work") 9000 revoke_runs

exchange-eq-ok_iff_example :
    ((exchange digest code 1599 (text "0001") drawn with_ticket).0 ≡ ok device) ↔ (
      (c : Text) × (validate_code code ≡ ok c)
      × IsRedeemable digest c 1599
          (text "dev_" ++ text "0001")
          (text "hmd_" ++ drawn)
          (connect digest with_ticket)
          device)
exchange-eq-ok_iff_example =
    exchange-eq-ok_iff digest code 1599 (text "0001") drawn with_ticket device

drawn_form : full_match is_url_safe 32 128 drawn ≡ true
unfolding full_match is_url_safe text
drawn_form = refl

code_form : full_match is_url_safe 32 128 code ≡ true
unfolding full_match is_url_safe text
code_form = refl

exchange-authenticate_example :
    ((device_profile_ids digest device.device_token 1700 paired).0 ≡ some device.profiles)
    × (((authenticate_device_token digest device.device_token (text "work") 1700 paired).0 ≡ true)
        ↔ ((device.profiles ≡ [])
            ⊎ (contains (current_profile digest (text "work")) device.profiles ≡ true)))
exchange-authenticate_example =
    exchange-authenticate digest code 1599 (text "0001") drawn with_ticket device 1700 (text "work")
      drawn_form exchange_runs

create_ticket-IsIssued_example :
    IsIssued digest site secret (pos 600) 1000 wanted code no_rows printed
create_ticket-IsIssued_example =
    create_ticket-IsIssued digest site secret (pos 600) 1000 wanted code no_rows printed create_runs

site_runs : validate_base_url site ≡ ok (text "https://hermes.example.org")
unfolding validate_base_url text
site_runs = refl

create_ticket-exchange_example : (exchange digest code 1600 (text "0001") drawn with_ticket).0 ≡ (
    if ltb 1600 1600
    then ok (record {
      base_url = text "https://hermes.example.org";
      device_id = text "dev_" ++ text "0001";
      device_token = text "hmd_" ++ drawn;
      profiles = normalize_profiles wanted;
    })
    else err (pairing_error "Pairing code has expired" "pairing_expired"))
create_ticket-exchange_example =
    create_ticket-exchange digest site secret (pos 600) 1000 wanted code no_rows printed
      (text "https://hermes.example.org") 1600 (text "0001") drawn create_runs site_runs code_form
      refl refl

no_rows-IsKeyed : IsKeyed no_rows
no_rows-IsKeyed = record { codes = tt; ids = tt; tokens = tt }

run-IsKeyed_example : IsKeyed (run digest calls no_rows)
run-IsKeyed_example = run-IsKeyed digest calls no_rows no_rows-IsKeyed

abbrev body : Json
body = obj (field "code" (str code) (field "schema_version" (int (pos 1)) end))

exchange_pairing_payload-Outcome_example :
    let r = exchange_pairing_payload digest 1599 (text "0001") drawn body with_ticket in
    Outcome digest with_ticket r.0 r.1
exchange_pairing_payload-Outcome_example =
    exchange_pairing_payload-Outcome digest 1599 (text "0001") drawn body with_ticket
