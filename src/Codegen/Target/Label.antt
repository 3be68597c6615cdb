-- ===== src/Codegen/Target/Label.antt =====
-- compiler/codegen/src/lib.rs: the labels of the targets.
use text.Mathlib.TextEquality.{eq_iff}
use kaspa_script.Prelude.{◌≡◌, ◌↔◌, refl, String, some, arith}
use kaspa_script.Codegen.Target.{
  Target, verified_tn12, tn10_toccata, toccata_preview, future_mainnet, as_str, parse,
}

parse-as_str : (t : Target) → parse (as_str t) ≡ some t
unfolding parse as_str
parse-as_str verified_tn12 = refl
parse-as_str tn10_toccata = refl
parse-as_str toccata_preview = refl
parse-as_str future_mainnet = refl

label_of : (label : String) (t : Target) → parse label ≡ some t → label ≡ as_str t
unfolding parse as_str
label_of label verified_tn12 h = ground (arith, eq_iff label "verified-tn12")
label_of label tn10_toccata h = ground (arith, eq_iff label "tn10-toccata")
label_of label toccata_preview h = ground (arith, eq_iff label "toccata-preview")
label_of label future_mainnet h = ground (arith, eq_iff label "future-mainnet")

-- A label parses to a target exactly where it is the label that the target prints.
pub parse-iff-as_str : (label : String) (t : Target) → (parse label ≡ some t) ↔ (label ≡ as_str t)
parse-iff-as_str label t = (label_of label t, λ h. rw (h, parse-as_str t) refl)
