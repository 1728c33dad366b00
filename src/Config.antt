-- ===== src/Config.antt =====
-- src/config/mod.rs: the records of the configuration file. A key is its bytes, a name or a method a
-- text. The crate `regex` is the record `Regex` over its type of compiled patterns.
use Prim.Native.String.{String}
use rsnova.Base.{ℕ, Bool, true, ◌&&◌, Option, none, some, List, ltb, leb}
use rsnova.Base.Outcome.{Outcome, ok, or_panic, ◌>>=◌}

pub record Regex (R : Type 0) : Type 0 where
  pub new : String → Option R
  pub is_match : R → List ℕ → Bool

pub record PacConfig (R : Type 0) : Type 0 where
  pub host : String
  pub channel : String
  pub re : Option R

module _ {R : Type 0} (regex : Regex R) where
  -- `Some(Regex::new(..).unwrap())` where there is none yet.
  pub compile : PacConfig R → Option R → Outcome (PacConfig R)
  compile pac (some re) = ok pac
  compile pac none = or_panic (regex.new pac.host) >>= λ re. ok (record pac { re = some re })

  unfoldable pub init : PacConfig R → Outcome (PacConfig R)
  unfolding compile
  init pac = compile pac pac.re

  -- `self.re.as_ref().unwrap()`
  unfoldable pub is_match : PacConfig R → List ℕ → Outcome Bool
  is_match pac addr = or_panic pac.re >>= λ re. ok (regex.is_match re addr)

pub record CipherConfig : Type 0 where
  pub key : List ℕ
  pub method : String

pub record ChannelConfig : Type 0 where
  pub name : String
  pub url : List ℕ
  pub cipher : CipherConfig
  pub ping_interval_sec : ℕ
  pub conns_per_host : ℕ
  pub max_alive_mins : ℕ
  pub proxy : Option (List ℕ)
  pub work_time_frame : Option (ℕ × ℕ)
  pub sni : Option (List ℕ)
  pub sni_proxy : Option (List ℕ)

pub in_frame : Option (ℕ × ℕ) → ℕ → Bool
in_frame none h = true
in_frame (some (from, to)) h = leb from h && ltb h to

unfoldable pub is_valid_hour : ChannelConfig → ℕ → Bool
unfolding in_frame
is_valid_hour c h = in_frame c.work_time_frame h

pub record TunnelConfig (R : Type 0) : Type 0 where
  pub listen : List ℕ
  pub cipher : Option CipherConfig
  pub pac : List (PacConfig R)
