-- ===== src/Auth/Tests.antt =====
-- Runs of the authentication, and instances of its theorems.
use qdmi_on_iqm.Base.{
  ℕ, ◌≤◌, ◌<◌, ◌≡◌, refl, ◌↔◌, ◌⊎◌, true, false, Option, none, some, [], Bytes, codes, arith,
}
use qdmi_on_iqm.Base.Int.{pos}
use qdmi_on_iqm.Json.{JsonLib}
use qdmi_on_iqm.Auth.Base64.{base64_decode, groups, out_length, emit, sextet}
use qdmi_on_iqm.Auth.Base64.RoundTrip.{standard, standard-IsAlphabet, base64_decode-encode}
use qdmi_on_iqm.Auth.Expiry.{time_left_seconds, split_dots, pad_body}
use qdmi_on_iqm.Auth.Expiry.Jwt.{jwt, time_left_seconds-jwt}
use qdmi_on_iqm.Auth.Manager.{
  AuthHost, TokenManager, tokens_file, external_token, value, throws, configuration,
  new_token_manager, get_bearer_token,
}
use qdmi_on_iqm.Auth.Manager.Source.{
  Conflict, new_token_manager-Conflict, get_bearer_token_external,
}
use qdmi_on_iqm.Auth.Manager.Validity.{counted, get_bearer_token_valid, get_bearer_token_reads}

decoded : base64_decode (codes "SVFNIQ==") ≡ codes "IQM!"
unfolding base64_decode groups out_length emit sextet
decoded = refl

base64_decode-encode_example : base64_decode (codes "SVFNIQ==") ≡ codes "IQM!"
base64_decode-encode_example =
    base64_decode-encode standard standard-IsAlphabet (codes "IQM!") (omega arith) (omega arith)

-- Every text is a document: its expiry time is 1000, and its access token the text itself.
abbrev plain : JsonLib
plain = record {
  Json = Bytes;
  parse = λ text. some text;
  is_object = λ j. true;
  is_array = λ j. false;
  is_string = λ j. false;
  is_boolean = λ j. false;
  is_null = λ j. false;
  is_number_integer = λ j. false;
  is_number_unsigned = λ j. false;
  find = λ j key. none;
  elements = λ j. [];
  items = λ j. [];
  get_string = λ j. none;
  get_bool = λ j. none;
  get_unsigned = λ j. none;
  get_double = λ j. none;
  value_int64 = λ j key d. some (pos 1_000);
  value_string = λ j key d. some j;
  value_bool = λ j key d. some d;
  size = λ j. 0;
  equals_unsigned = λ j n. false;
  empty_object = [];
  set_member = λ j key member. j;
  array = λ members. [];
  of_string = λ s. s;
  of_unsigned = λ n. [];
  dump = λ j. some j;
}

abbrev token : Bytes
token = jwt (codes "h") (codes "{}") (codes "s")

time_left_seconds-jwt_example : time_left_seconds plain token 400 ≡ 600
time_left_seconds-jwt_example =
    time_left_seconds-jwt plain (codes "h") (codes "{}") (codes "s") (codes "{}") 1_000 400
      (omega arith) (omega arith) (omega arith) (omega arith) refl refl

abbrev host : AuthHost ℕ
host = record { read_file = λ path w. (some token, w); time = λ w. w }

abbrev from_file : TokenManager
from_file = record {
  token_source = tokens_file;
  token_source_value = some (codes "t");
  access_token = none;
}

read_once :
    get_bearer_token plain host 1 from_file 400
    ≡ (value (some token), record from_file { access_token = some token }, 400)
unfolding get_bearer_token time_left_seconds split_dots pad_body base64_decode groups out_length
    emit sextet
read_once = refl

get_bearer_token_valid_example : 0 < time_left_seconds plain token 400
get_bearer_token_valid_example = get_bearer_token_valid plain host 1 from_file 400 refl read_once

get_bearer_token_reads_example :
    (get_bearer_token plain (counted host) 1 from_file (0, 2_000)).2.0 ≤ 2
get_bearer_token_reads_example = get_bearer_token_reads plain host 1 from_file (0, 2_000)

abbrev no_env : Bytes → Option Bytes
no_env key = none

abbrev set_env : Bytes → Option Bytes
set_env key = some (codes "e")

new_token_manager-Conflict_example :
    ((new_token_manager no_env none (some (codes "f")) ≡ throws configuration)
      ↔ Conflict none (some (codes "f")) none none)
    × ((new_token_manager no_env none (some (codes "f"))
          ≡ new_token_manager set_env none (some (codes "f")))
        ⊎ ((◌≡◌ {A = Option Bytes} none none) × (some (codes "f") ≡ none)))
new_token_manager-Conflict_example =
    new_token_manager-Conflict no_env set_env none (some (codes "f"))

abbrev given : TokenManager
given = record from_file { token_source = external_token; token_source_value = some (codes "t") }

built : new_token_manager no_env (some (codes "t")) none ≡ value given
unfolding new_token_manager
built = refl

get_bearer_token_external_example :
    get_bearer_token plain host 1 given 7
    ≡ (value (some (codes "t")), record given { access_token = some (codes "t") }, 7)
get_bearer_token_external_example =
    get_bearer_token_external plain host no_env (codes "t") given 1 7 built
