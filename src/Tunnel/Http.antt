-- ===== src/Tunnel/Http.antt =====
-- src/tunnel/http.rs: requests and their headers. Texts are lists of bytes; where the source goes
-- through `String::from_utf8_lossy`, the bytes stand for the text.
pub mod Parsing
pub mod Body
pub mod Tail
pub mod Rewriting
pub mod Reader
pub mod Passing
pub mod Sized
pub mod Handling
pub mod Refusing
use Prim.Native.String.{String}
use rsnova.Base.{
  ℕ, zero, suc, Bool, true, false, not, Option, none, some, List, [], ◌∷◌, ◌++◌, ◌==◌,
  if◌then◌else◌,
}
use rsnova.Base.Text.{codes, to_ascii_lowercase, same_bytes}

pub record Header : Type 0 where
  pub name : List ℕ
  pub value : List ℕ

pub record HttpRequest : Type 0 where
  pub method : Option (List ℕ)
  pub path : Option (List ℕ)
  pub version : Option ℕ
  pub headers : List Header

-- `Ascii` compares names without regard to case.
abbrev pub same_name : List ℕ → List ℕ → Bool
same_name a b = same_bytes (to_ascii_lowercase a) (to_ascii_lowercase b)

abbrev pub retain : (Header → Bool) → List Header → List Header
retain keep [] = []
retain keep (h ∷ hs) = let rest = retain keep hs in if keep h then h ∷ rest else rest

unfoldable pub remove_header : HttpRequest → List ℕ → HttpRequest
remove_header r header = record r {
  headers = retain (λ x. not (same_name x.name header)) r.headers;
}

abbrev pub first_value : List Header → List ℕ → Option (List ℕ)
first_value [] header = none
first_value (h ∷ hs) header =
    let later = first_value hs header in if same_name h.name header then some h.value else later

unfoldable pub get_header : HttpRequest → List ℕ → Option (List ℕ)
get_header r header = first_value r.headers header

abbrev pub crlf : List ℕ
crlf = 13 ∷ 10 ∷ []

abbrev pub word : Option (List ℕ) → List ℕ
word none = []
word (some v) = v ++ (b' ' ∷ [])

abbrev pub version_text : Option ℕ → List ℕ
version_text none = []
version_text (some v) = if v == 0 then codes "HTTP/1.0" else codes "HTTP/1.1"

abbrev pub header_lines : List Header → List ℕ
header_lines [] = []
header_lines (h ∷ hs) = h.name ++ (b':' ∷ (h.value ++ (crlf ++ header_lines hs)))

unfoldable pub to_bytes : HttpRequest → List ℕ
to_bytes r =
    word r.method
    ++ (word r.path ++ (version_text r.version ++ (crlf ++ (header_lines r.headers ++ crlf))))
