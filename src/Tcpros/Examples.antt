-- ===== src/Tcpros/Examples.antt =====
-- A header of TCPROS, with text that UTF-8 writes byte by byte: aioros/_node/_tcpros/_protocol.py.
use aioros.Common.{Result, ok}
use aioros.Common.{◌≡◌, refl, [], ◌∷◌, ◌++◌, some, Str, str, str_eq, str_lt, Result, ok}
use aioros.Dict.{Dict, get}
use aioros.Tcpros.Words.{Bytes, pack_u32}
use aioros.Tcpros.{
  left_strip, right_strip, insert_field, sort_fields, encode_field, encode_fields, encode_header,
  decode_header, read_header,
}
use aioros.Tcpros.Fields.{IsCodec, IsKey, has_equals}
use aioros.Tcpros.Sorted.{IsDistinct}
use aioros.Tcpros.RoundTrip.{read_header-encode_header}
use aioros.Tcpros.Ends.{decode_header_ends}

-- the codec on ASCII text
abbrev ascii : Str → Bytes
ascii s = s

abbrev from_ascii : Bytes → Result Str
from_ascii bytes = ok bytes

ascii-IsCodec : IsCodec ascii from_ascii
ascii-IsCodec = record { append = λ s t. refl; equals = refl; decoded = λ s. refl }

abbrev header : Dict Str
header = (str "topic", str "/a=b") ∷ (str "md5sum", str "*") ∷ []

abbrev written : Bytes
written = 26 ∷ 0 ∷ 0 ∷ 0 ∷ 8 ∷ 0 ∷ 0 ∷ 0 ∷ str "md5sum=*" ++ (10 ∷ 0 ∷ 0 ∷ 0 ∷ str "topic=/a=b")

encode_header-known : encode_header ascii header ≡ ok written
unfolding encode_header encode_fields encode_field sort_fields insert_field str_lt pack_u32
encode_header-known = refl

header-IsDistinct : IsDistinct header
unfolding get str_eq
header-IsDistinct = (refl, (refl, tt))

topic-IsKey : IsKey (str "topic")
unfolding has_equals left_strip right_strip
topic-IsKey = record { filled = refl; plain = refl; stripped = refl }

md5sum-IsKey : IsKey (str "md5sum")
unfolding has_equals left_strip right_strip
md5sum-IsKey = record { filled = refl; plain = refl; stripped = refl }

read_header-encode_header_example :
    (header' : Dict Str) × (read_header from_ascii (written ++ 7 ∷ [])
      ≡ some (ok (header', 7 ∷ [])))
    × ((key : Str) → get header' key ≡ get header key)
read_header-encode_header_example =
    read_header-encode_header ascii from_ascii header written (7 ∷ []) ascii-IsCodec
      header-IsDistinct (topic-IsKey, (md5sum-IsKey, tt)) encode_header-known

decode_header_ends_example :
    (r : Result (Dict Str)) × (decode_header from_ascii (9 ∷ 0 ∷ 0 ∷ 0 ∷ 1 ∷ []) ≡ some r)
decode_header_ends_example = decode_header_ends from_ascii (9 ∷ 0 ∷ 0 ∷ 0 ∷ 1 ∷ [])

abbrev request : Dict Str
request = (str "callerid", str "/echo") ∷ (str "md5sum", str "abc") ∷ []
