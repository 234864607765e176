-- ===== src/Core/HeaderChain/Import.antt =====
-- core/headerchain.go: the import of headers, from `WriteHeaders` up to `InsertHeaderChain`.
pub mod Aborted
use mive.Base.{
  ℕ, suc, ◌+◌, ◌-◌, Bool, true, false, not, ◌&&◌, Option, none, some, List, [], ◌∷◌, ◌++◌, length,
  last_of, ◌==◌, leb, if◌then◌else◌, sub64, add64,
}
use mive.Core.Types.{Hash, Header, number_u64}
use mive.Core.Lru.{Lru}
use mive.Core.Rawdb.{Storage, Write}
use mive.Core.Rawdb.Accessors.{write_header}
use mive.Core.HeaderChain.{
  HeaderChain, Error, unknown_ancestor, aborted, banned_hash, fatal, non_contiguous,
  index_out_of_range, get_header, has_header, get_canonical_hash,
}
use mive.Core.HeaderChain.Reorg.{reorg}

-- `core.WriteStatus`; its zero value is `NonStatTy`.
pub data WriteStatus : Type 0 where
  non_stat canon_stat : WriteStatus

-- `headerWriteResult`
pub record HeaderWriteResult : Type 0 where
  pub status : WriteStatus
  pub ignored : ℕ
  pub imported : ℕ
  pub last_hash : Hash
  pub last_header : Header

module _ {S : Storage} {H : Lru Hash Header} {N : Lru Hash ℕ} where
  -- The loop of `WriteHeaders`: the batch, and the number and hash of each header put into it.
  unfoldable pub record_headers :
      HeaderChain S H N → Bool → List Header → HeaderChain S H N × List Write × List (ℕ × Hash)
  record_headers hc parent_known [] = (hc, [], [])
  record_headers hc parent_known (header ∷ headers) =
      let number = number_u64 header in
      let already_known = parent_known && has_header hc header.hash number in
      let cached : HeaderChain S H N = record hc {
        header_cache = H.add hc.header_cache header.hash header;
        number_cache = N.add hc.number_cache header.hash number;
      } in
      let (hc', ws, inserted) =
        record_headers (if already_known then hc else cached) already_known headers in
      if already_known
      then (hc', ws, inserted)
      else (hc', write_header S header ++ ws, (number, header.hash) ∷ inserted)

  -- `WriteHeaders`; `interrupted` is what `procInterrupt` answers.
  unfoldable pub write_headers :
      Bool → HeaderChain S H N → List Header → HeaderChain S H N × ℕ × Option Error
  write_headers interrupted hc [] = (hc, 0, none)
  write_headers interrupted hc (first ∷ rest) =
      let (parent, hc') = get_header hc first.parent_hash (sub64 (number_u64 first) 1) in
      let (hc'', batch, inserted) = record_headers hc' true (first ∷ rest) in
      elim parent [
        | none ↦ (hc', 0, some unknown_ancestor)
        | some _ ↦ elim interrupted [
          | true ↦ (hc'', 0, some aborted)
          | false ↦ elim (S.commit batch hc''.chain_db) [
            | none ↦ (hc'', 0, some fatal)
            | some db ↦ (record hc'' { chain_db = db }, length inserted, none)
          ]
        ]
      ]

  -- The end of `writeHeadersAndSetHead`, where the headers are written.
  unfoldable pub set_head_of :
      ℕ
      → HeaderChain S H N
      → Header
      → List Header
      → ℕ
      → HeaderChain S H N × Option HeaderWriteResult × Option Error
  set_head_of fuel hc first rest inserted =
      let last = last_of first rest in
      let result : HeaderWriteResult = record {
        status = non_stat;
        ignored = length (first ∷ rest) - inserted;
        imported = inserted;
        last_hash = last.hash;
        last_header = last;
      } in
      let (hc', error) = reorg fuel hc (first ∷ rest) in
      elim (get_canonical_hash hc (number_u64 last) == last.hash
        && leb (number_u64 last) (number_u64 hc.current_header)) [
          | true ↦ (hc, some result, none)
          | false ↦ elim error [
            | some e ↦ (hc', none, some e)
            | none ↦ (hc', some (record result { status = canon_stat }), none)
          ]
        ]

  -- `writeHeadersAndSetHead`. With no headers Go panics at `headers[len(headers)-1]`.
  unfoldable pub write_headers_and_set_head :
      ℕ
      → Bool
      → HeaderChain S H N
      → List Header
      → HeaderChain S H N × Option HeaderWriteResult × Option Error
  write_headers_and_set_head fuel interrupted hc headers =
      let (hc', inserted, error) = write_headers interrupted hc headers in
      elim error [
        | some e ↦ (hc', none, some e)
        | none ↦ elim headers [
          | [] ↦ (hc', none, some index_out_of_range)
          | first ∷ rest ↦ set_head_of fuel hc' first rest inserted
        ]
      ]

  -- `InsertHeaderChain`, without its log; the interrupt is asked before and within.
  unfoldable pub insert_header_chain :
      ℕ
      → Bool
      → Bool
      → HeaderChain S H N
      → List Header
      → HeaderChain S H N × WriteStatus × Option Error
  insert_header_chain fuel stopped interrupted hc chain =
      let (hc', result, error) = write_headers_and_set_head fuel interrupted hc chain in
      elim stopped [
        | true ↦ (hc, non_stat, some aborted)
        | false ↦ elim error [
          | some e ↦ (hc', non_stat, some e)
          | none ↦ elim result [ none ↦ (hc', non_stat, none) | some r ↦ (hc', r.status, none) ]
        ]
      ]
