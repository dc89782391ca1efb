-- ===== src/Hoppie/Translator/Relay.antt =====
-- crates/openlink-hoppie/src/translator.rs: what the packet of a message reads back as.
use openlink.Prelude.{
  ℕ, ◌≤◌, ◌≡◌, refl, ap, ◌∙◌, Text, true, Option, none, some, [], ◌∷◌, arith, OnSome, All, is_digit,
  lacks, to_string, to_string-All, parse_unsigned, parse_unsigned-to_string, map_option, and_then,
  unwrap_or, trim_end, to_uppercase, ◌=t◌,
}
use openlink.Models.Attribute.{MessageDirection, ResponseAttribute, wu, an, r, y, n, ne}
use openlink.Models.Message.{
  MessageElement, CpdlcApplicationMessage, application, CpdlcEnvelope, render_message,
  effective_response_attr,
}
use openlink.Hoppie.Packet.{HoppieCpdlcPacket, nonempty, parse_cpdlc_packet, parse-format}
use openlink.Hoppie.Translator.{
  u8_max, match_body_to_element, envelope_of, hoppie_to_openlink, response_attr_to_hoppie,
  hoppie_ra_to_openlink, packet_of,
}

digits-lack : (s : Text) → All (λ c. is_digit c ≡ true) s → lacks 47 s ≡ true
digits-lack [] h = refl
digits-lack (c ∷ s) h = let rest = digits-lack s h.1 in let first = h.0 in ground arith

mrn-lack : (mrn : Option ℕ) → lacks 47 (unwrap_or [] (map_option to_string mrn)) ≡ true
mrn-lack none = refl
mrn-lack (some k) = digits-lack (to_string k) (to_string-All k)

attr-lack : (a : ResponseAttribute) → lacks 47 (response_attr_to_hoppie a) ≡ true
unfolding response_attr_to_hoppie
attr-lack wu = refl
attr-lack an = refl
attr-lack r = refl
attr-lack y = refl
attr-lack n = refl
attr-lack ne = refl

hoppie_ra-response_attr :
    (a : ResponseAttribute) → hoppie_ra_to_openlink (response_attr_to_hoppie a) ≡ a
unfolding response_attr_to_hoppie hoppie_ra_to_openlink to_uppercase ◌=t◌
hoppie_ra-response_attr wu = refl
hoppie_ra-response_attr an = refl
hoppie_ra-response_attr r = refl
hoppie_ra-response_attr y = refl
hoppie_ra-response_attr n = refl
hoppie_ra-response_attr ne = refl

parse-nonempty :
    (k : ℕ) (s : Text)
    → parse_unsigned u8_max s ≡ some k
    → and_then (parse_unsigned u8_max) (nonempty s) ≡ some k
unfolding parse_unsigned
parse-nonempty k [] h = cc
parse-nonempty k (c ∷ s) h = h

mrn-back :
    (mrn : Option ℕ)
    → OnSome (λ k. k ≤ u8_max) mrn
    → and_then (parse_unsigned u8_max) (nonempty (unwrap_or [] (map_option to_string mrn))) ≡ mrn
mrn-back none h = refl
mrn-back (some k) h = parse-nonempty k (to_string k) (parse_unsigned-to_string u8_max k h)

-- What the packet of a message reads back as: the fields, as texts.
packet_of-parsed :
    (app : CpdlcApplicationMessage)
    → parse_cpdlc_packet (packet_of app)
      ≡ some (record {
        min = to_string app.min;
        mrn = nonempty (unwrap_or [] (map_option to_string app.mrn));
        response_attr = response_attr_to_hoppie (effective_response_attr app);
        body = trim_end (render_message app);
      })
unfolding packet_of
packet_of-parsed app =
    parse-format (to_string app.min) (map_option to_string app.mrn)
      (response_attr_to_hoppie (effective_response_attr app)) (render_message app)
      (digits-lack (to_string app.min) (to_string-All app.min)) (mrn-lack app.mrn)
      (attr-lack (effective_response_attr app))

-- The envelope of a relayed message.
abbrev pub relayed : Text → Text → ℕ → Option ℕ → MessageElement → ℕ → CpdlcEnvelope
relayed from_callsign to_callsign min mrn element now = record {
  source = from_callsign;
  destination = to_callsign;
  message = application (record { min = min; mrn = mrn; elements = element ∷ []; timestamp = now });
}

-- A message that crosses to Hoppie and back, whatever its elements are, keeps its reference number;
-- it has the MIN that the bridge assigned, and the one element that the text of the rendered
-- message matches. The packet between carries the MIN and the effective response attribute in a
-- form that reads back.
pub hoppie_to_openlink-packet_of :
    (from_callsign to_callsign : Text) (app : CpdlcApplicationMessage) (min : ℕ)
    (direction : MessageDirection) (now : ℕ)
    → app.min ≤ u8_max
    → OnSome (λ k. k ≤ u8_max) app.mrn
    → (hoppie_to_openlink from_callsign to_callsign (packet_of app) min direction now
        ≡ some (
            relayed from_callsign to_callsign min app.mrn
              (match_body_to_element (trim_end (render_message app)) direction)
              now))
      × (and_then
            (λ (p : HoppieCpdlcPacket). parse_unsigned u8_max p.min)
            (parse_cpdlc_packet (packet_of app))
          ≡ some app.min)
      × (map_option
            (λ (p : HoppieCpdlcPacket). hoppie_ra_to_openlink p.response_attr)
            (parse_cpdlc_packet (packet_of app))
          ≡ some (effective_response_attr app))
unfolding hoppie_to_openlink envelope_of
hoppie_to_openlink-packet_of from_callsign to_callsign app min direction now h k =
    let parsed = packet_of-parsed app in
    let there = ap (map_option (envelope_of from_callsign to_callsign min direction now)) parsed in
    let reference =
      ap
        (λ mrn. some (
          relayed from_callsign to_callsign min mrn
            (match_body_to_element (trim_end (render_message app)) direction) now))
        (mrn-back app.mrn k) in
    (
      there ∙ reference,
      ap (and_then (λ (p : HoppieCpdlcPacket). parse_unsigned u8_max p.min)) parsed
          ∙ parse_unsigned-to_string u8_max app.min h,
      ap (map_option (λ (p : HoppieCpdlcPacket). hoppie_ra_to_openlink p.response_attr)) parsed
          ∙ ap some (hoppie_ra-response_attr (effective_response_attr app)),
    )
