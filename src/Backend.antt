-- ===== src/Backend.antt =====
-- The backend of a virtual host: its pools and its content routes, of internal/proxy/proxy.go and
-- content.go. A compiled pattern is a parameter, and so is whether a file of certificates loads.
pub mod Content
pub mod Build
pub mod Url
pub mod Serve
pub mod Sound
use cherry_waf.Base.{
  ℕ, zero, suc, ◌+◌, ◌-◌, ◌*◌, ◌/◌, ◌%◌, ◌^◌, ◌≤◌, ◌<◌, min, max, String, ◌≡◌, refl, sym, ap, subst,
  fun_ext, ◌∙◌, ◌≢◌, ◌↔◌, ◌⊎◌, inl, inr, Bool, true, false, not, ◌&&◌, ◌||◌, Option, none, some,
  List, [], ◌∷◌, ◌++◌, map, arith, eq_iff, ltb, leb, if◌then◌else◌, ltb→lt, lt→ltb, leb→le, nat_beq,
  nat_beq_iff, Bool-cases, Option-cases, length, get_elem?, take, drop, In, All, any, all, keep_if,
  find_first, length-append, length-take-le, length-keep_if-le, In-keep_if, In-keep_if_of, All-In,
  find_first-some, find_first-none, Eq, ◌==◌, list_beq, list_beq_iff, ==_refl, Text, codes, nat_eq,
  string_eq, text_eq, if_both, between, is_space, trim_left, trim_right, trim_space, rune_len,
  byte_len, strip_prefix, strip_suffix, to_lower, ◌>>=◌,
}
use cherry_waf.Proxy.{Pool}
use cherry_waf.Config.Types.{VirtualHost, ContentRoute}

-- `compiledContentRoute`; a nil pattern is none.
pub record CompiledContentRoute (Regex : Type 0) : Type 0 where
  pub config : ContentRoute
  pub methods : List Text
  pub path_pattern : Option Regex
  pub header_pattern : Option Regex
  pub query_pattern : Option Regex

-- `Backend`, without its keys, its metrics and its proxy.
pub record Backend (Regex : Type 0) : Type 0 where
  pub vhost : VirtualHost
  pub pools : List (String × Pool)
  pub default_pool : String
  pub content_routes : List (CompiledContentRoute Regex)
