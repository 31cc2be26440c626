-- ===== src/Dns/Tests.antt =====
-- Messages at concrete inputs.
use pao_pao_gate_way.Common.{◌≡◌, refl, true, [], ◌∷◌, some, arith, is_some}
use pao_pao_gate_way.Common.Bytes.{Bytes, All-of_all, be_bytes, from_be_at}
use pao_pao_gate_way.Common.Text.{split_dot}
use pao_pao_gate_way.Dns.Message.{
  Query, ok, parse_query, parse_name, lower, build_query_with, answer_a, write_labels, query_header,
}
use pao_pao_gate_way.Dns.Response.{parse_response}
use pao_pao_gate_way.Dns.Queries.{asked, parse_query-build_query_with}
use pao_pao_gate_way.Dns.Questions.{Question, parse_query-Question}
use pao_pao_gate_way.Dns.Records.{address}
use pao_pao_gate_way.Dns.Answers.{parse_response-answer_a}
use pao_pao_gate_way.Dns.Termination.{parse_response_total}

program : Unit {0}
unfolding parse_query parse_name lower build_query_with write_labels query_header be_bytes
    from_be_at split_dot asked
program = tt

-- "Ab.c"
abbrev host : Bytes
host = b'A' ∷ b'b' ∷ b'.' ∷ b'c' ∷ []

-- The query for it, of type A and number 258.
abbrev query : Bytes
query =
    1 ∷ 2 ∷ 1 ∷ 0 ∷ 0 ∷ 1 ∷ 0 ∷ 0 ∷ 0 ∷ 0 ∷ 0 ∷ 0 ∷ 2 ∷ b'A' ∷ b'b' ∷ 1 ∷ b'c' ∷ 0 ∷ 0 ∷ 1 ∷ 0 ∷ 1
    ∷ []

abbrev question : Query
question = record {
  id = 258;
  rd = true;
  name = b'a' ∷ b'b' ∷ b'.' ∷ b'c' ∷ [];
  qtype = 1;
  qclass = 1;
  question_end = 22;
  raw = query;
}

read_query : parse_query query ≡ some (ok question)
unfolding program
read_query = refl

-- A name that is a compression pointer to itself, as the name of a mail server.
abbrev cycle : Bytes
cycle =
    0 ∷ 1 ∷ 0x80 ∷ 0 ∷ 0 ∷ 0 ∷ 0 ∷ 1 ∷ 0 ∷ 0 ∷ 0 ∷ 0 ∷ 0 ∷ 0 ∷ 15 ∷ 0 ∷ 1 ∷ 0 ∷ 0 ∷ 0 ∷ 9 ∷ 0 ∷ 4
    ∷ 0 ∷ 5 ∷ 0xc0 ∷ 25 ∷ []

parse_response_total_example : is_some (parse_response cycle) ≡ true
parse_response_total_example = parse_response_total cycle

parse_query-build_query_with_example : parse_query query ≡ some (ok (asked 258 host 1 true query))
parse_query-build_query_with_example =
    parse_query-build_query_with 258 host 1 true {bytes = query} (omega arith) (omega arith)
      (All-of_all 128 host refl) (unfold program in refl)

parse_query-Question_example : Question query question
parse_query-Question_example =
    parse_query-Question query {q = question} (All-of_all 256 query refl) read_query

parse_response-answer_a_example :
    parse_response (answer_a question 0x0a000001 60) ≡ some (ok (address 258 0x0a000001 60))
parse_response-answer_a_example =
    parse_response-answer_a query 0x0a000001 60 {q = question} (All-of_all 256 query refl)
      read_query (unfold program in refl) (omega arith) (omega arith)
