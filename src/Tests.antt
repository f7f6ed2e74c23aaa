-- ===== src/Tests.antt =====
-- Sample data of the tests: text functions, a password hash and a meeting with two segments.
mod Meetings
mod Accounts
mod Rooms
mod Work
mod Delivery
mod Pipelines
mod Stock
mod Talk
use Prim.Native.String.{String}
use Prim.Native.String
use hanmir_talk.Prelude.{
  ℕ, zero, suc, ◌+◌, ◌-◌, ◌*◌, ◌≤◌, ◌<◌, ◌≡◌, refl, sym, ap, ◌∙◌, ◌≢◌, ◌⊎◌, inl, inr, Bool, true,
  false, not, ◌&&◌, ◌||◌, Option, none, some, List, [], ◌∷◌, ◌++◌, map, arith, ltb, leb, ◌==◌,
  if◌then◌else◌, Bool-cases, Option-cases, length, take, drop, All, find, any, filter, modify,
  remove, count, find_by, has_by, modify_by, remove_by, Fresh, Distinct, is_some, or_else,
  or_option, option_map, option_bind, Ident, given, given_id, sort, first, last, sum_of, max, min,
  lookup, insert, delete, member, add, drop_member, Flags, has_flag, set_flag, clear_flag,
  users_with, clear_all, IsMap, TextOps, deduped,
}
use hanmir_talk.Prelude.{==_refl}
use hanmir_talk.User.{Bcrypt, User, admin, team_member, Role}

unfoldable pub text_length : String → ℕ
text_length String.[] = 0
text_length (String.◌∷◌ c s) = suc (text_length s)

abbrev pub sample_text : TextOps
sample_text = record {
  trim = λ s. s;
  lower = λ s. s;
  includes = λ s t. true;
  prefix = λ n s. s;
  size = text_length;
}

text_length_refl : (p : String) → text_length p == text_length p ≡ true
text_length_refl p = ==_refl (text_length p)

-- A stand-in for bcrypt that compares lengths.
unfoldable pub sample_bcrypt : Bcrypt
unfolding text_length
sample_bcrypt = record {
  hash_sync = λ salt p. String.◌∷◌ "$" p;
  compare_sync = λ p h. some (suc (text_length p) == text_length h);
  compare-hash = λ salt p. ap some (==_refl (suc (text_length p)));
  given-hash = λ salt p. refl;
}

abbrev pub sample_hash : ℕ → ℕ
sample_hash n = n + 100

abbrev pub sample_user : Ident → Role → User
sample_user id role = record {
  id = id;
  name = "Kim";
  email = "kim@hanmir.kr";
  department_id = 1;
  department_name = "RnD";
  position = "Lead";
  role = role;
  avatar_tone = "default";
  initials = "K";
  phone = none;
  presence = none;
  is_active = true;
  must_change_password = false;
}
