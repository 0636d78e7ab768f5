-- ===== src/Merge/Settle/Tests.antt =====
-- A RING of four servers, of which the second is down and waits to be deleted.
use chmpx.Base.{◌≡◌, refl, true, false}
use chmpx.Status.{srvin_down_delpending, srvin_down_deleted}
use chmpx.Status.Change.{change_suspend_flag}
use chmpx.IdMap.{bucket, save_chmpx_id_map, search_chain, search_chmpxid}
use chmpx.Man.Select.{find_server}
use chmpx.Merge.Sample.{four, world, sender}
use chmpx.Merge.Settle.{settle_all}
use chmpx.Merge.Settle.Kin.{Findable}
use chmpx.Merge.Settle.Ends.{is_spent, Other, settle_all-ends}

four-Findable : Findable four
unfolding find_server search_chmpxid search_chain save_chmpx_id_map bucket
four-Findable = record { own = refl; known = refl }

start-Other : Other srvin_down_delpending srvin_down_deleted
unfolding change_suspend_flag
start-Other = record {
  new = refl;
  flagged = λ off. elim off [ true ↦ refl | false ↦ refl ];
  out = refl;
}

settle_all-ends_example :
    is_spent (settle_all world srvin_down_delpending srvin_down_deleted sender).0 ≡ false
settle_all-ends_example =
    settle_all-ends world srvin_down_delpending srvin_down_deleted sender start-Other four-Findable
