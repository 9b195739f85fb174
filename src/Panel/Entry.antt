-- ===== src/Panel/Entry.antt =====
-- The values that come from the backend (packages/ts-api/src/generated): directory entries, listing
-- batches, and the matches of a content search.
use file_octopus.Base.{ℕ, Bool, Option, List, JsString}

pub data FileKind : Type 0 where
  file directory symlink archive virtual unknown : FileKind

pub record FileEntryDto : Type 0 where
  pub uri : JsString
  pub name : JsString
  pub extension : Option JsString
  pub kind : FileKind
  pub size : Option ℕ
  pub modified_at : Option JsString
  pub created_at : Option JsString
  pub accessed_at : Option JsString
  pub is_hidden : Bool
  pub is_symlink : Bool
  pub is_placeholder : Bool
  pub symlink_target : Option JsString
  pub provider_id : JsString
  pub can_read : Bool
  pub can_list : Bool
  pub can_write : Bool
  pub can_delete : Bool
  pub can_rename : Bool
  pub permissions : Option JsString
  pub owner : Option JsString
  pub target_uri : Option JsString
  pub virtual_kind : Option JsString
  pub protocol : Option JsString
  pub status : Option JsString
  pub description : Option JsString

-- The two fields that the front end reads.
pub record IpcError : Type 0 where
  pub code : JsString
  pub message : JsString

pub record DirectoryBatchEventDto : Type 0 where
  pub session_id : JsString
  pub request_id : JsString
  pub uri : JsString
  pub entries : List FileEntryDto
  pub batch_index : ℕ
  pub is_complete : Bool
  pub total_hint : Option ℕ
  pub error : Option IpcError

pub record ContentSearchMatchDto : Type 0 where
  pub uri : JsString
  pub parent_uri : JsString
  pub name : JsString
  pub kind : FileKind
  pub size : Option ℕ
  pub modified_at : Option JsString
  pub line_number : ℕ
  pub line_content : JsString
  pub match_start : ℕ
  pub match_end : ℕ

pub record ContentSearchResultDto : Type 0 where
  pub matches : List ContentSearchMatchDto
  pub warnings : List JsString
  pub incomplete : Bool

pub record ContentSearchMatchEventDto : Type 0 where
  pub job_id : JsString
  pub uri : JsString
  pub query : JsString
  pub item : ContentSearchMatchDto

pub record ContentSearchCompletedEventDto : Type 0 where
  pub job_id : JsString
  pub uri : JsString
  pub query : JsString
  pub result : ContentSearchResultDto
