-- ===== src/Dnsd/Messages.antt =====
-- A message library to run the resolver with: a message is the record of what the resolver reads.
use llmbox.Prelude.{ℕ, refl, List, [], ◌∷◌, Str}
use llmbox.Dnsd.Server.{Question, Rr, a, other, DnsLibrary}

pub record Message : Type 0 where
  pub questions : List Question
  pub answers : List Rr
  pub rcode : ℕ
  pub id : ℕ

abbrev pub messages : DnsLibrary
messages = record {
  Msg = Message;
  questions = λ m. m.questions;
  answers = λ m. m.answers;
  rcode = λ m. m.rcode;
  id = λ m. m.id;
  set_id = λ n m. record m { id = n };
  set_rcode = λ m code. record { questions = m.questions; answers = []; rcode = code; id = m.id };
  answers-set_id = λ n m. refl;
  id-set_id = λ n m. refl;
  answers-set_rcode = λ m code. refl;
  rcode-set_rcode = λ m code. refl;
  id-set_rcode = λ m code. refl;
}

abbrev pub ask : Str → Message
ask name = record {
  questions = record { name = name; qtype = 1 } ∷ [];
  answers = [];
  rcode = 0;
  id = 7;
}

abbrev pub answer : Message
answer = record {
  questions = [];
  answers = a (10 ∷ 0 ∷ 0 ∷ 1 ∷ []) ∷ other ∷ a (10 ∷ 0 ∷ 0 ∷ 1 ∷ []) ∷ [];
  rcode = 0;
  id = 99;
}
