-- ===== src/Tests/Win.antt =====
-- A static proxy with a list to bypass.
use zicade_rs.Prelude.{some, refl}
use zicade_rs.Text.{text}
use zicade_rs.Win.Discovery.{new, resolve}
use zicade_rs.Win.Discovery.Urls.{Url, IsUrl, named, shown, IsAnswer, resolve_shown}

abbrev in_corp : Url
in_corp = record {
  scheme = text "ws";
  userinfo = some (text "u");
  host = named (text "HQ");
  port = some (text "80");
  tail = text "/@x";
}

in_corp-IsUrl : IsUrl in_corp
in_corp-IsUrl = record {
  scheme_ok = (refl, (refl, tt));
  userinfo_ok = (refl, tt);
  host_ok = (refl, (refl, tt));
  port_ok = (refl, (refl, tt));
  tail_ok = refl;
}

resolve_shown_example :
    IsAnswer
      (text "gw:8080")
      (some (text "h*; <local>"))
      in_corp
      (resolve (new (text "gw:8080") (some (text "h*; <local>"))) (shown in_corp))
resolve_shown_example =
    resolve_shown (text "gw:8080") (some (text "h*; <local>")) in_corp in_corp-IsUrl
