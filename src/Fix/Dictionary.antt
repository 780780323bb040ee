-- ===== src/Fix/Dictionary.antt =====
-- The FIX 4.4 dictionary of src/protocols/fix_handler.py: `FIX_4_4_TAGS` and the two maps that are
-- read off it.
use mathlib.Core.Logic.{◌↔◌}
use algo_engine.Prelude.{
  ℕ, ◌≡◌, refl, Bool, true, false, ◌&&◌, Option, none, some, List, [], ◌∷◌, ◌++◌, String, arith,
  if◌then◌else◌, ◌==◌,
}
use algo_engine.Prelude.Eq.{◌=?◌, nat_eq, string_eq}

abbrev pub Entry : Type 0
Entry = ℕ × String × String

-- Tags 1 to 212.
tags_low : List Entry
tags_low =
    (1, "Account", "STRING")
    ∷ (6, "AvgPx", "PRICE")
    ∷ (8, "BeginString", "STRING")
    ∷ (9, "BodyLength", "INT")
    ∷ (10, "CheckSum", "STRING")
    ∷ (11, "ClOrdID", "STRING")
    ∷ (14, "CumQty", "QTY")
    ∷ (17, "ExecID", "STRING")
    ∷ (20, "ExecTransType", "CHAR")
    ∷ (21, "HandlInst", "CHAR")
    ∷ (22, "SecurityIDSource", "STRING")
    ∷ (25, "IOIQltyInd", "CHAR")
    ∷ (30, "LastMkt", "EXCHANGE")
    ∷ (31, "LastPx", "PRICE")
    ∷ (32, "LastQty", "QTY")
    ∷ (34, "MsgSeqNum", "INT")
    ∷ (35, "MsgType", "STRING")
    ∷ (36, "NewSeqNo", "INT")
    ∷ (37, "OrderID", "STRING")
    ∷ (38, "OrderQty", "QTY")
    ∷ (39, "OrdStatus", "CHAR")
    ∷ (40, "OrdType", "CHAR")
    ∷ (41, "OrigClOrdID", "STRING")
    ∷ (43, "PossDupFlag", "BOOLEAN")
    ∷ (44, "Price", "PRICE")
    ∷ (45, "RefSeqNum", "INT")
    ∷ (48, "SecurityID", "STRING")
    ∷ (49, "SenderCompID", "STRING")
    ∷ (50, "SenderSubID", "STRING")
    ∷ (52, "SendingTime", "UTCTIMESTAMP")
    ∷ (54, "Side", "CHAR")
    ∷ (55, "Symbol", "STRING")
    ∷ (56, "TargetCompID", "STRING")
    ∷ (57, "TargetSubID", "STRING")
    ∷ (58, "Text", "STRING")
    ∷ (59, "TimeInForce", "CHAR")
    ∷ (60, "TransactTime", "UTCTIMESTAMP")
    ∷ (64, "SettlDate", "LOCALMKTDATE")
    ∷ (66, "ListID", "STRING")
    ∷ (75, "TradeDate", "LOCALMKTDATE")
    ∷ (76, "ExecBroker", "STRING")
    ∷ (77, "PositionEffect", "CHAR")
    ∷ (78, "NoAllocs", "NUMINGROUP")
    ∷ (81, "ProcessCode", "CHAR")
    ∷ (87, "AllocStatus", "INT")
    ∷ (88, "AllocRejCode", "INT")
    ∷ (89, "Signature", "DATA")
    ∷ (90, "SecureDataLen", "INT")
    ∷ (91, "SecureData", "DATA")
    ∷ (93, "SignatureLength", "INT")
    ∷ (95, "RawDataLength", "INT")
    ∷ (96, "RawData", "DATA")
    ∷ (98, "EncryptMethod", "INT")
    ∷ (99, "StopPx", "PRICE")
    ∷ (100, "ExDestination", "EXCHANGE")
    ∷ (102, "CxlRejReason", "INT")
    ∷ (103, "OrdRejReason", "INT")
    ∷ (107, "SecurityDesc", "STRING")
    ∷ (108, "HeartBtInt", "INT")
    ∷ (109, "ClientID", "STRING")
    ∷ (111, "MaxFloor", "QTY")
    ∷ (112, "TestReqID", "STRING")
    ∷ (120, "SettlCurrency", "CURRENCY")
    ∷ (122, "OrigSendingTime", "UTCTIMESTAMP")
    ∷ (128, "DeliverToCompID", "STRING")
    ∷ (129, "DeliverToSubID", "STRING")
    ∷ (130, "IOINaturalFlag", "BOOLEAN")
    ∷ (140, "PrevClosePx", "PRICE")
    ∷ (141, "ResetSeqNumFlag", "BOOLEAN")
    ∷ (142, "SenderLocationID", "STRING")
    ∷ (143, "TargetLocationID", "STRING")
    ∷ (144, "OnBehalfOfCompID", "STRING")
    ∷ (145, "OnBehalfOfSubID", "STRING")
    ∷ (150, "ExecType", "CHAR")
    ∷ (151, "LeavesQty", "QTY")
    ∷ (167, "SecurityType", "STRING")
    ∷ (200, "MaturityMonthYear", "MONTHYEAR")
    ∷ (207, "SecurityExchange", "EXCHANGE")
    ∷ (211, "PegOffsetValue", "FLOAT")
    ∷ (212, "XmlDataLen", "INT")
    ∷ []

-- Tags 213 to 789.
tags_high : List Entry
tags_high =
    (213, "XmlData", "DATA")
    ∷ (242, "UnderlyingInstrument", "STRING")
    ∷ (250, "RelatedInstrument", "STRING")
    ∷ (252, "QuoteID", "STRING")
    ∷ (262, "MDReqID", "STRING")
    ∷ (263, "SubscriptionRequestType", "CHAR")
    ∷ (264, "MarketDepth", "INT")
    ∷ (265, "MDUpdateType", "INT")
    ∷ (266, "AggregatedBook", "BOOLEAN")
    ∷ (267, "NoMDEntryTypes", "NUMINGROUP")
    ∷ (268, "NoMDEntries", "NUMINGROUP")
    ∷ (269, "MDEntryType", "CHAR")
    ∷ (270, "MDEntryPx", "PRICE")
    ∷ (271, "MDEntrySize", "QTY")
    ∷ (272, "MDEntryDate", "UTCDATE")
    ∷ (273, "MDEntryTime", "UTCTIMEONLY")
    ∷ (274, "TickDirection", "CHAR")
    ∷ (275, "MDMkt", "EXCHANGE")
    ∷ (278, "MDEntryID", "STRING")
    ∷ (279, "MDUpdateAction", "CHAR")
    ∷ (282, "MDEntryOriginator", "STRING")
    ∷ (286, "OpenCloseSettlFlag", "CHAR")
    ∷ (288, "MDEntryBuyer", "STRING")
    ∷ (289, "MDEntrySeller", "STRING")
    ∷ (290, "MDEntryPositionNo", "INT")
    ∷ (291, "FinancialStatus", "CHAR")
    ∷ (292, "CorporateAction", "CHAR")
    ∷ (296, "NoQuoteEntries", "NUMINGROUP")
    ∷ (336, "TradingSessionID", "STRING")
    ∷ (340, "TradSesStatus", "INT")
    ∷ (347, "MessageEncoding", "STRING")
    ∷ (369, "LastMsgSeqNumProcessed", "INT")
    ∷ (370, "OnBehalfOfSendingTime", "UTCTIMESTAMP")
    ∷ (371, "RefTagID", "INT")
    ∷ (372, "RefMsgType", "STRING")
    ∷ (373, "SessionRejectReason", "INT")
    ∷ (423, "PriceType", "INT")
    ∷ (434, "CxlRejResponseTo", "CHAR")
    ∷ (446, "LastLiquidityInd", "INT")
    ∷ (447, "PartitionID", "INT")
    ∷ (453, "NoPartyIDs", "NUMINGROUP")
    ∷ (460, "Product", "INT")
    ∷ (461, "CFICode", "STRING")
    ∷ (480, "CancellationRights", "CHAR")
    ∷ (481, "MoneyLaunderingStatus", "CHAR")
    ∷ (497, "TotNoOrders", "INT")
    ∷ (507, "RegistID", "STRING")
    ∷ (522, "OwnerType", "INT")
    ∷ (523, "PartySubID", "STRING")
    ∷ (528, "OrderCapacity", "CHAR")
    ∷ (529, "OrderRestrictions", "CHAR")
    ∷ (548, "CrossID", "STRING")
    ∷ (549, "CrossType", "INT")
    ∷ (550, "CrossPrioritization", "INT")
    ∷ (552, "NoSides", "NUMINGROUP")
    ∷ (553, "Username", "STRING")
    ∷ (554, "Password", "STRING")
    ∷ (567, "TradSesStatusRejReason", "INT")
    ∷ (573, "MatchStatus", "CHAR")
    ∷ (574, "MatchType", "STRING")
    ∷ (578, "NoSettlementInstructions", "NUMINGROUP")
    ∷ (581, "AccountType", "INT")
    ∷ (582, "CustOrderCapacity", "INT")
    ∷ (584, "MassStatusReqID", "STRING")
    ∷ (585, "MassStatusReqType", "INT")
    ∷ (623, "EncodedTextLen", "INT")
    ∷ (624, "EncodedText", "DATA")
    ∷ (625, "TradingSessionSubID", "STRING")
    ∷ (626, "AllocType", "INT")
    ∷ (636, "WorkingIndicator", "BOOLEAN")
    ∷ (660, "AcctIDSource", "INT")
    ∷ (665, "SettlInstMsgID", "STRING")
    ∷ (669, "LastParPx", "PRICE")
    ∷ (670, "NoPositions", "NUMINGROUP")
    ∷ (692, "QuotePriceType", "INT")
    ∷ (702, "NoPosAmt", "NUMINGROUP")
    ∷ (708, "PosAmtType", "STRING")
    ∷ (710, "PosReqID", "STRING")
    ∷ (715, "ClearingBusinessDate", "LOCALMKTDATE")
    ∷ (789, "NextExpectedMsgSeqNum", "INT")
    ∷ []

unfoldable pub fix_tags : List Entry
unfolding tags_low tags_high
fix_tags = tags_low ++ tags_high

-- `FIX_TAG_NAME`, with the `get` that reads it.
tag_name_in : List Entry → ℕ → Option String
tag_name_in [] tag = none
tag_name_in ((t, name, _) ∷ rows) tag = if t == tag then some name else tag_name_in rows tag

-- `FIX_NAME_TAG`: a later row would overwrite an earlier one of the same name.
name_tag_in : List Entry → String → Option ℕ
name_tag_in [] name = none
name_tag_in ((t, n, _) ∷ rows) name = elim (name_tag_in rows name) [
  | some later ↦ some later
  | none ↦ if n =? name then some t else none
]

unfoldable pub fix_tag_name : ℕ → Option String
unfolding fix_tags tag_name_in
fix_tag_name = tag_name_in fix_tags

unfoldable pub fix_name_tag : String → Option ℕ
unfolding fix_tags name_tag_in
fix_name_tag = name_tag_in fix_tags

is_none {ℓ} : {A : Type ℓ} → Option A → Bool
is_none none = true
is_none (some a) = false

-- No tag and no name stands twice in a table.
distinct : List Entry → Bool
unfolding is_none
distinct [] = true
distinct ((t, n, _) ∷ rows) =
    is_none (tag_name_in rows t) && (is_none (name_tag_in rows n) && distinct rows)

name→tag :
    (rows : List Entry) (n : String) (t : ℕ)
    → distinct rows ≡ true
    → name_tag_in rows n ≡ some t
    → tag_name_in rows t ≡ some n
unfolding distinct name_tag_in tag_name_in
name→tag [] n t d h = cc
name→tag ((t', n', _) ∷ rows) n t d h = ground (arith, string_eq.beq_iff n' n, name→tag rows n t)

tag→name :
    (rows : List Entry) (n : String) (t : ℕ)
    → distinct rows ≡ true
    → tag_name_in rows t ≡ some n
    → name_tag_in rows n ≡ some t
unfolding distinct name_tag_in tag_name_in
tag→name [] n t d h = cc
tag→name ((t', n', _) ∷ rows) n t d h = ground (arith, string_eq.beq_iff n' n, tag→name rows n t)

fix_tags-distinct : distinct fix_tags ≡ true
unfolding distinct fix_tags tag_name_in name_tag_in
fix_tags-distinct = refl

-- The two maps of the dictionary are inverse to one another: a name stands for a tag exactly when
-- the tag has that name.
pub fix_name_tag-iff-fix_tag_name :
    (n : String) (t : ℕ) → (fix_name_tag n ≡ some t) ↔ (fix_tag_name t ≡ some n)
unfolding fix_name_tag fix_tag_name
fix_name_tag-iff-fix_tag_name n t =
    (name→tag fix_tags n t fix_tags-distinct, tag→name fix_tags n t fix_tags-distinct)
