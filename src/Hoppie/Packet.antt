-- ===== src/Hoppie/Packet.antt =====
-- crates/openlink-hoppie/src/hoppie_client.rs: the packets and message blocks of the Hoppie network.
use openlink.Prelude.{
  ◌≡◌, refl, Text, text, true, false, List, [], ◌∷◌, ◌++◌, Option, none, some, and_then, unwrap_or,
  lacks, is_empty, splitn, splitn-append, trim, trim_end, trim_start, trim_end-append,
  trim_end-cons, strip_prefix,
}

pub record HoppieCpdlcPacket : Type 0 where
  pub min : Text
  pub mrn : Option Text
  pub response_attr : Text
  pub body : Text

abbrev pub nonempty : Text → Option Text
nonempty [] = none
nonempty (c ∷ s) = some (c ∷ s)

abbrev of_parts : List Text → Option HoppieCpdlcPacket
of_parts (min ∷ mrn ∷ attr ∷ []) =
    some (record { min = min; mrn = nonempty mrn; response_attr = attr; body = [] })
of_parts (min ∷ mrn ∷ attr ∷ body ∷ _) =
    some (record { min = min; mrn = nonempty mrn; response_attr = attr; body = body })
of_parts _ = none

unfoldable pub parse_cpdlc_packet : Text → Option HoppieCpdlcPacket
parse_cpdlc_packet packet =
    and_then (λ data_. of_parts (splitn 4 47 data_)) (strip_prefix (text "/data2/") (trim packet))

unfoldable pub format_cpdlc_packet : Text → Option Text → Text → Text → Text
format_cpdlc_packet min mrn response_attr body =
    text "/data2/" ++ (min ++ (47 ∷ (unwrap_or [] mrn ++ (47 ∷ (response_attr ++ (47 ∷ body))))))

trim-format :
    (min mrn attr body : Text)
    → trim (text "/data2/" ++ (min ++ (47 ∷ (mrn ++ (47 ∷ (attr ++ (47 ∷ body)))))))
      ≡ text "/data2/" ++ (min ++ (47 ∷ (mrn ++ (47 ∷ (attr ++ (47 ∷ trim_end body))))))
unfolding trim_start
trim-format min mrn attr body =
    let a = trim_end-cons 47 body refl in
    let a' : is_empty (trim_end (47 ∷ body)) ≡ false = rw a refl in
    let b = trim_end-append (47 ∷ attr) (47 ∷ body) a' in
    let b' : is_empty (trim_end (47 ∷ (attr ++ (47 ∷ body)))) ≡ false = rw b refl in
    let c = trim_end-append (47 ∷ mrn) (47 ∷ (attr ++ (47 ∷ body))) b' in
    let c' : is_empty (trim_end (47 ∷ (mrn ++ (47 ∷ (attr ++ (47 ∷ body)))))) ≡ false = rw c refl in
    let d =
      trim_end-append (text "/data2/" ++ min) (47 ∷ (mrn ++ (47 ∷ (attr ++ (47 ∷ body))))) c' in
    rw d (rw c (rw b (rw a refl)))

-- A packet that the bridge formats parses back, whatever the body is, if none of the first three
-- fields has a slash: an empty reference number reads as none, and white space at the end of the
-- body is lost.
pub parse-format :
    (min : Text) (mrn : Option Text) (response_attr body : Text)
    → lacks 47 min ≡ true
    → lacks 47 (unwrap_or [] mrn) ≡ true
    → lacks 47 response_attr ≡ true
    → parse_cpdlc_packet (format_cpdlc_packet min mrn response_attr body)
      ≡ some (record {
        min = min;
        mrn = nonempty (unwrap_or [] mrn);
        response_attr = response_attr;
        body = trim_end body;
      })
unfolding parse_cpdlc_packet format_cpdlc_packet strip_prefix splitn
parse-format min mrn attr body h i j =
    let reference = unwrap_or [] mrn in
    rw (trim-format min reference attr body) (
      rw (splitn-append 2 47 min (reference ++ (47 ∷ (attr ++ (47 ∷ trim_end body)))) h) (
        rw (splitn-append 1 47 reference (attr ++ (47 ∷ trim_end body)) i)
          (rw (splitn-append 0 47 attr (trim_end body) j) refl)))
