-- ===== src/Identity/Languages.antt =====
-- `ISO_639_1_CODES` of portal/booth_identity.py.
use voxbento.Prelude.{
  Bool, String, List, [], ◌∷◌, ◌++◌, Text, codes, any, nat_eq, text_eq, if◌then◌else◌,
}

-- Splits a text at its spaces.
unfoldable pub split_words : Text → List Text
split_words [] = [] ∷ []
split_words (c ∷ s) = elim (split_words s) [
  | [] ↦ []
  | w ∷ ws ↦ if nat_eq c 32 then [] ∷ w ∷ ws else (c ∷ w) ∷ ws
]

unfoldable pub words : String → List Text
unfolding split_words
words s = split_words (codes s)

unfoldable pub iso_639_1_codes : List Text
unfolding words
iso_639_1_codes =
    words "aa ab af ak am an ar as av ay az ba be bg bh bi"
    ++ words "bm bn bo br bs ca ce ch co cr cs cu cv cy da de"
    ++ words "dv dz ee el en eo es et eu fa ff fi fj fo fr fy"
    ++ words "ga gd gl gn gu gv ha he hi ho hr ht hu hy hz ia"
    ++ words "id ie ig ii ik io is it iu ja jv ka kg ki kj kk"
    ++ words "kl km kn ko kr ks ku kv kw ky la lb lg li ln lo"
    ++ words "lt lu lv mg mh mi mk ml mn mr ms mt my na nb nd"
    ++ words "ne ng nl nn no nr nv ny oc oj om or os pa pi pl"
    ++ words "ps pt qu rm rn ro ru rw sa sc sd se sg si sk sl"
    ++ words "sm sn so sq sr ss st su sv sw ta te tg th ti tk"
    ++ words "tl tn to tr ts tt tw ty ug uk ur uz ve vi vo wa"
    ++ words "wo xh yi yo za zh zu"

-- `code in ISO_639_1_CODES`
unfoldable pub is_iso_639_1 : Text → Bool
unfolding iso_639_1_codes
is_iso_639_1 code = any (λ k. text_eq k code) iso_639_1_codes
