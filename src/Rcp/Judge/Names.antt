-- ===== src/Rcp/Judge/Names.antt =====
-- The replies that hold an address or a name: 0x0a36 and 0x0aea.
use bosch_shc_camera_client.Common.{
  Bool, not, ◌&&◌, [], ◌∷◌, ◌++◌, Option, none, some, ◌==◌, if◌then◌else◌, length, is_empty,
}
use bosch_shc_camera_client.Common.Texts.{Bytes, Text, codes, same, starts_with, strip, rstrip}
use bosch_shc_camera_client.Common.Decimal.{decimal}
use bosch_shc_camera_client.Rcp.Parse.Catalogs.{decode_ascii, is_space}
use bosch_shc_camera_client.Rcp.Judge.Defs.{Verdict, accept, reject, ignore}

-- ".".join(str(b) for b in raw)
unfoldable pub dotted : Bytes → Text
dotted [] = []
dotted (b ∷ []) = decimal b
dotted (b ∷ c ∷ bs) = decimal b ++ b'.' ∷ dotted (c ∷ bs)

-- raw.rstrip(b"\x00").decode("ascii", errors="replace").strip()
unfoldable pub null_terminated : Bytes → Text
unfolding decode_ascii is_space
null_terminated raw = strip is_space (decode_ascii (rstrip (λ b. b == 0) raw))

unfoldable pub ip_of : Bytes → Text
unfolding dotted null_terminated
ip_of raw = if length raw == 4 then dotted raw else null_terminated raw

abbrev pub unset_ip : Text
unset_ip = codes "0.0.0.0"

abbrev pub usable_ip : Text → Bool
usable_ip ip = not (is_empty ip) && not (same ip unset_ip) && not (starts_with ip (codes "<"))

abbrev pub usable_name : Text → Bool
usable_name name = not (is_empty name) && not (starts_with name (codes "<"))

-- `if raw: ... elif raw is None: fail`
abbrev judge_text : (Bytes → Text) → (Text → Bool) → Option Bytes → Verdict Text
judge_text read usable none = reject
judge_text read usable (some []) = ignore
judge_text read usable (some (b ∷ bs)) =
    if usable (read (b ∷ bs)) then accept (read (b ∷ bs)) else reject

-- 0x0a36
unfoldable pub judge_lan_ip : Option Bytes → Verdict Text
unfolding ip_of
judge_lan_ip = judge_text ip_of usable_ip

-- 0x0aea
unfoldable pub judge_product_name : Option Bytes → Verdict Text
unfolding null_terminated
judge_product_name = judge_text null_terminated usable_name
