-- ===== src/Processing/Claims/Message.antt =====
-- The parts of a claim's decoded message (StakeHelper of lbry.go, and the protobuf types) that
-- daemon/processing/claim.go reads. A message that is not set is `none`; a getter of a field that
-- is not set gives the zero value.
use chainquery.Prelude.{ℕ, Option, List}
use chainquery.Prelude.Text.{Text}

pub record Source : Type 0 where
  pub name : Text
  pub size : ℕ
  pub url : Text
  pub hash : Text
  pub media_type : Text
  pub sd_hash : Text

-- An amount is a number of its currency's smallest unit.
pub record Fee : Type 0 where
  pub currency : Text
  pub amount : ℕ
  pub address : Text

pub record Frame : Type 0 where
  pub height : ℕ
  pub width : ℕ

pub record Video : Type 0 where
  pub frame : Frame
  pub duration : ℕ
  pub audio_duration : Option ℕ

pub record ClaimList : Type 0 where
  pub list_type : ℕ
  pub claim_hashes : List Text

-- A release time that is negative is 0 here.
pub record Stream : Type 0 where
  pub author : Text
  pub license : Text
  pub fee : Option Fee
  pub source : Option Source
  pub release_time : ℕ
  pub image : Option Frame
  pub video : Option Video
  pub audio_duration : Option ℕ

pub record Channel : Type 0 where
  pub cover : Option Source
  pub email : Text
  pub featured : Option ClaimList
  pub public_key : Text

pub record Message : Type 0 where
  pub title : Text
  pub description : Text
  pub thumbnail_url : Text
  pub tags : List Text
  pub languages : List Text
  pub stream : Option Stream
  pub channel : Option Channel
  pub collection : Option ClaimList
  -- The claim hash of a repost.
  pub repost : Option Text
